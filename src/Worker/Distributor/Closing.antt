-- ===== src/Worker/Distributor/Closing.antt =====
-- `CheckArchivedTasks` leaves a final status behind, once the webhook service answers again.
use serving_agent.Common.{String, ◌≡◌, ◌⊎◌, inl, inr, List, [], ◌∷◌, arith, eq_iff, Result, ok, err}
use serving_agent.Platform.{Webhook}
use serving_agent.Worker.{
  PayloadCodec, PayloadRunPrediction, QueuedTask, TaskDistributor, Runtime, queue_critical,
}
use serving_agent.Worker.Distributor.{
  give_up, tasks_or_none, drop_task, drop_if_due, check_payload, check_archived_task,
  check_archived_from, check_listed, check_archived_tasks,
}
use serving_agent.Worker.Predict.Completes.{Acknowledges}
use serving_agent.Trace.{World, IsTerminal, status_of}
use serving_agent.Trace.Record.{recorded_webhook, recorded_distributor, recorded_runtime}

-- A payload that can be read names the record.
abbrev pub Names : String → Result PayloadRunPrediction → Type 0
Names id (err _) = ⊥
Names id (ok payload) = payload.id ≡ id

-- One of the tasks has such a payload.
abbrev pub IsNamed : PayloadCodec → String → List QueuedTask → Type 0
IsNamed codec id [] = ⊥
IsNamed codec id (task ∷ tasks) = Names id (codec.unmarshal task.payload) ⊎ IsNamed codec id tasks

-- The archived tasks that the queue lists in this state of the services.
abbrev pub archived_at : {E : Type 0} → TaskDistributor E → E → List QueuedTask
archived_at queue e = tasks_or_none (queue.list_archived_tasks queue_critical e).0

module _ {E : Type 0} (codec : PayloadCodec) (runtime : Runtime E) (distributor : TaskDistributor E)
    (webhook : Webhook E) (answers : Acknowledges webhook) (id : String) where
  abbrev IsClosed : World E → Type 0
  IsClosed w = IsTerminal (status_of id w.calls)

  abbrev dropped : QueuedTask → Result (Unit {0}) → World E → World E
  dropped task updated w =
      (drop_if_due codec (recorded_runtime runtime) (recorded_distributor distributor)
        (recorded_webhook webhook) task updated w).1

  abbrev checked : QueuedTask → Result PayloadRunPrediction → World E → World E
  checked task payload w =
      (check_payload codec (recorded_runtime runtime) (recorded_distributor distributor)
        (recorded_webhook webhook) task payload w).1

  status_of-dropped :
      (task : QueuedTask) (updated : Result (Unit {0})) (w : World E)
      → status_of id (dropped task updated w).calls ≡ status_of id w.calls
  unfolding drop_if_due drop_task
  status_of-dropped task updated w = ground arith

  checked-IsClosed :
      (task : QueuedTask) (payload : Result PayloadRunPrediction) (w : World E)
      → Names id payload ⊎ IsClosed w
      → IsClosed (checked task payload w)
  unfolding check_payload
  checked-IsClosed task (err x) w (inl named) = absurd named
  checked-IsClosed task (err x) w (inr closed) = closed
  checked-IsClosed task (ok payload) w h =
      let u = give_up payload.id "failed due to system errors" in
      let (updated, w₁) = (recorded_webhook webhook).update_task_info u w in
      rw (status_of-dropped task updated w₁)
        (ground (arith, answers u w.env, eq_iff payload.id id, eq_iff "failed" "", h))

  check_archived_from-IsClosed :
      (tasks : List QueuedTask) (w : World E)
      → IsNamed codec id tasks ⊎ IsClosed w
      → IsClosed
          (check_archived_from codec
            (recorded_runtime runtime)
            (recorded_distributor distributor)
            (recorded_webhook webhook)
            tasks
            w).1
  unfolding check_archived_from check_archived_task
  check_archived_from-IsClosed [] w (inl named) = absurd named
  check_archived_from-IsClosed [] w (inr closed) = closed
  check_archived_from-IsClosed (task ∷ tasks) w (inl (inl named)) =
      check_archived_from-IsClosed tasks _
        (inr (checked-IsClosed task (codec.unmarshal task.payload) w (inl named)))
  check_archived_from-IsClosed (task ∷ tasks) w (inl (inr later)) =
      check_archived_from-IsClosed tasks _ (inl later)
  check_archived_from-IsClosed (task ∷ tasks) w (inr closed) =
      check_archived_from-IsClosed tasks _
        (inr (checked-IsClosed task (codec.unmarshal task.payload) w (inr closed)))

  check_listed-IsClosed :
      (listed : Result (List QueuedTask)) (w : World E)
      → IsNamed codec id (tasks_or_none listed) ⊎ IsClosed w
      → IsClosed
          (check_listed codec
            (recorded_runtime runtime)
            (recorded_distributor distributor)
            (recorded_webhook webhook)
            listed
            w).1
  unfolding check_listed
  check_listed-IsClosed (err x) w (inl named) = absurd named
  check_listed-IsClosed (err x) w (inr closed) = closed
  check_listed-IsClosed (ok tasks) w h = check_archived_from-IsClosed tasks w h

  pub check_archived_tasks-IsClosed :
      (w : World E)
      → IsNamed codec id (archived_at distributor w.env) ⊎ IsTerminal (status_of id w.calls)
      → IsTerminal (
          status_of id (
            (check_archived_tasks codec
              (recorded_runtime runtime)
              (recorded_distributor distributor)
              (recorded_webhook webhook)
              w).1.calls))
  unfolding check_archived_tasks
  check_archived_tasks-IsClosed w h =
      let (listed, w₁) = (recorded_distributor distributor).list_archived_tasks queue_critical w in
      check_listed-IsClosed listed w₁ h
