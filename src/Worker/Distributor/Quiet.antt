-- ===== src/Worker/Distributor/Quiet.antt =====
-- The checks and the shutdown are quiet, over any services.
use serving_agent.Common.{
  String, refl, List, [], ◌∷◌, Result, ok, err, Bool-cases, Result-cases, inl, inr, ltb, ◌+◌,
  str_eq, not, map, contains, map, ◌&&◌,
}
use serving_agent.Config.{Config}
use serving_agent.Platform.{Webhook, TaskInfo}
use serving_agent.Worker.{
  PayloadCodec, PayloadRunPrediction, QueuedTask, TaskDistributor, Runtime, queue_critical,
}
use serving_agent.Worker.Distributor.{
  twelve_hours, gather, drop_task, drop_if_due, check_payload, check_archived_task,
  check_archived_from, check_listed, check_archived_tasks, close_payload, close_task, close_tasks,
  shutdown_distributor, check_found, check_task, check_tasks, wait_for_tasks, give_up_lost,
  check_model, check_task_status, ids_or_none, tasks_or_none,
}
use serving_agent.Trace.{World}
use serving_agent.Trace.Quiet.{Quietly}
use serving_agent.Trace.Record.{recorded_webhook, recorded_distributor, recorded_runtime}

module _ {E : Type 0} (codec : PayloadCodec) (runtime : Runtime E) (distributor : TaskDistributor E)
    (webhook : Webhook E) where
  abbrev d : TaskDistributor (World E)
  d = recorded_distributor distributor

  abbrev h : Webhook (World E)
  h = recorded_webhook webhook

  abbrev r : Runtime (World E)
  r = recorded_runtime runtime

  drop_if_due-Quietly :
      (task : QueuedTask) (updated : Result (Unit {0}))
      → Quietly (drop_if_due codec r d h task updated)
  unfolding drop_if_due drop_task
  drop_if_due-Quietly task (ok _) w q = (refl, q)
  drop_if_due-Quietly task (err x) w q =
      elim (Bool-cases (ltb (runtime.now w.env).0 (task.last_failed_at + twelve_hours))) [
        | inl young ↦ rw young (refl, q)
        | inr old ↦ rw old (refl, (refl, q))
      ]

  check_payload-Quietly :
      (task : QueuedTask) (payload : Result PayloadRunPrediction)
      → Quietly (check_payload codec r d h task payload)
  unfolding check_payload
  check_payload-Quietly task (err x) w q = q
  check_payload-Quietly task (ok payload) w q = drop_if_due-Quietly task _ _ (refl, q)

  check_archived_from-Quietly :
      (tasks : List QueuedTask) → Quietly (check_archived_from codec r d h tasks)
  unfolding check_archived_from check_archived_task
  check_archived_from-Quietly [] w q = q
  check_archived_from-Quietly (task ∷ tasks) w q =
      check_archived_from-Quietly tasks _
        (check_payload-Quietly task (codec.unmarshal task.payload) w q)

  check_listed-Quietly :
      (listed : Result (List QueuedTask)) → Quietly (check_listed codec r d h listed)
  unfolding check_listed
  check_listed-Quietly (err x) w q = q
  check_listed-Quietly (ok tasks) w q = check_archived_from-Quietly tasks w q

  pub check_archived_tasks-Quietly : Quietly (check_archived_tasks codec r d h)
  unfolding check_archived_tasks
  check_archived_tasks-Quietly w q =
      let (listed, w₁) = d.list_archived_tasks queue_critical w in
      check_listed-Quietly listed w₁ (refl, q)

module _ {E : Type 0} (codec : PayloadCodec) (distributor : TaskDistributor E)
    (webhook : Webhook E) where
  close_payload-Quietly :
      (task : QueuedTask)
      → Quietly
          (close_task codec (recorded_distributor distributor) (recorded_webhook webhook) task)
  unfolding close_task close_payload drop_task
  close_payload-Quietly task w q = elim (Result-cases (codec.unmarshal task.payload)) [
    | inl readable ↦ rw (readable.1, close_payload) (refl, (refl, q))
    | inr unreadable ↦ rw (unreadable.1, close_payload) q
  ]

  close_tasks-Quietly :
      (tasks : List QueuedTask)
      → Quietly
          (close_tasks codec (recorded_distributor distributor) (recorded_webhook webhook) tasks)
  unfolding close_tasks
  close_tasks-Quietly [] w q = q
  close_tasks-Quietly (task ∷ tasks) w q =
      close_tasks-Quietly tasks _ (close_payload-Quietly task w q)

  pub shutdown_distributor-Quietly :
      Quietly
        (shutdown_distributor codec (recorded_distributor distributor) (recorded_webhook webhook))
  unfolding shutdown_distributor
  shutdown_distributor-Quietly w q =
      let d = recorded_distributor distributor in
      let (scheduled_tasks, w₁) = d.list_scheduled_tasks queue_critical w in
      let (pending_tasks, w₂) = d.list_pending_tasks queue_critical w₁ in
      let (retry_tasks, w₃) = d.list_retry_tasks queue_critical w₂ in
      close_tasks-Quietly (gather (gather (gather [] scheduled_tasks) pending_tasks) retry_tasks) w₃
        (refl, (refl, (refl, q)))

module _ {E : Type 0} (config : Config) (runtime : Runtime E) (distributor : TaskDistributor E)
    (webhook : Webhook E) where
  abbrev d' : TaskDistributor (World E)
  d' = recorded_distributor distributor

  abbrev h' : Webhook (World E)
  h' = recorded_webhook webhook

  abbrev r' : Runtime (World E)
  r' = recorded_runtime runtime

  check_found-Quietly :
      (unfinished : List String) (status id : String) (found : Result TaskInfo)
      → Quietly (check_found config r' d' h' unfinished status id found)
  unfolding check_found
  check_found-Quietly unfinished status id (err x) w q = (refl, q)
  check_found-Quietly unfinished status id (ok task) w q =
      elim (Bool-cases (not (contains unfinished task.queue_id) && str_eq task.status status)) [
        | inl lost ↦ rw lost (refl, q)
        | inr kept ↦ rw kept q
      ]

  check_tasks-Quietly :
      (unfinished : List String) (status : String) (ids : List String)
      → Quietly (check_tasks config r' d' h' unfinished status ids)
  unfolding check_tasks check_task
  check_tasks-Quietly unfinished status [] w q = q
  check_tasks-Quietly unfinished status (id ∷ ids) w q =
      let (found, w₁) = h'.get_task_info_object id w in
      check_tasks-Quietly unfinished status ids _
        (check_found-Quietly unfinished status id found w₁ (refl, q))

  give_up_lost-Quietly :
      (pending_ids running_ids : List String)
      → Quietly (give_up_lost config r' d' h' pending_ids running_ids)
  unfolding give_up_lost
  give_up_lost-Quietly pending_ids running_ids w q =
      let (listed, w₁) = d'.list_unfinished_tasks queue_critical w in
      let unfinished = map (λ (t : QueuedTask). t.id) (tasks_or_none listed) in
      check_tasks-Quietly unfinished "running" running_ids _
        (check_tasks-Quietly unfinished "pending" pending_ids w₁ (refl, q))

  wait_for_tasks-Quietly :
      (pending_ids running_ids : List String)
      → Quietly (wait_for_tasks config r' d' h' pending_ids running_ids)
  unfolding wait_for_tasks
  wait_for_tasks-Quietly [] [] w q = q
  wait_for_tasks-Quietly [] (_ ∷ _) w q = (refl, q)
  wait_for_tasks-Quietly (_ ∷ _) _ w q = (refl, q)

  check_model-Quietly : Quietly (check_model config r' d' h')
  unfolding check_model
  check_model-Quietly w q =
      let (pending, w₁) = h'.get_task_id_by_model_status config.model_name "pending" w in
      let (running, w₂) = h'.get_task_id_by_model_status config.model_name "running" w₁ in
      let ps = ids_or_none pending in
      let rs = ids_or_none running in
      give_up_lost-Quietly ps rs _ (wait_for_tasks-Quietly ps rs w₂ (refl, (refl, q)))

  pub check_task_status-Quietly : Quietly (check_task_status config r' d' h')
  unfolding check_task_status
  check_task_status-Quietly w q = elim (Bool-cases (str_eq config.model_name "")) [
    | inl unset ↦ rw unset q
    | inr set ↦ rw set (check_model-Quietly w q)
  ]
