-- ===== src/Worker/Distributor.antt =====
-- worker/distributor.go: the distributor over asynq, and the checks that bring the task records in
-- line with the queue. Log lines are left out.
pub mod Notices
pub mod Archived
pub mod Careful
pub mod Status
pub mod Records
pub mod Settling
pub mod Failing
pub mod RecordSet
pub mod Rounds
pub mod Closings
pub mod Closing
pub mod Shutdown
pub mod Listing
pub mod Quiet
use serving_agent.Common.{
  of_seconds, ℕ, zero, suc, ◌+◌, ◌*◌, String, true, not, ◌&&◌, List, [], ◌∷◌, ◌++◌, map, length,
  Exec, pure, ◌>>=◌, ◌>>◌, Result, ok, err, ltb, str_eq, contains, if◌then◌else◌,
}
use serving_agent.Config.{Config}
use serving_agent.Platform.{UpdateRequest, update_of, TaskInfo, Webhook}
use serving_agent.Worker.{
  queue_critical, PayloadRunPrediction, QueuedTask, ListKind, archived, scheduled, pending, retry,
  active, TaskDistributor, Asynq, Runtime, PayloadCodec,
}
use serving_agent.Worker.Predict.{distribute_task_run_prediction}

-- One step of the listings: a listing that failed is logged and adds nothing.
abbrev pub gather : List QueuedTask → Result (List QueuedTask) → List QueuedTask
gather tasks (err _) = tasks
gather tasks (ok more) = tasks ++ more

module _ {W : Type 0} (config : Config) (codec : PayloadCodec) (asynq : Asynq W) where
  list_tasks : ListKind → String → Exec W (Result (List QueuedTask))
  list_tasks kind queue = asynq.list kind queue config.max_queue_size

  unfoldable pub list_unfinished_tasks : String → Exec W (Result (List QueuedTask))
  unfolding list_tasks
  list_unfinished_tasks queue = do
    scheduled_tasks ← list_tasks scheduled queue
    pending_tasks ← list_tasks pending queue
    retry_tasks ← list_tasks retry queue
    active_tasks ← list_tasks active queue
    pure (
        ok (
          gather (gather (gather (gather [] scheduled_tasks) pending_tasks) retry_tasks)
            active_tasks))

  -- `RedisTaskDistributor` as a `TaskDistributor`.
  unfoldable pub redis_task_distributor : TaskDistributor W
  unfolding list_tasks
  redis_task_distributor = record {
    distribute_task_run_prediction = distribute_task_run_prediction config codec asynq;
    get_task_queue_info = asynq.get_queue_info;
    delete_task = asynq.delete;
    list_archived_tasks = list_tasks archived;
    list_scheduled_tasks = list_tasks scheduled;
    list_pending_tasks = list_tasks pending;
    list_retry_tasks = list_tasks retry;
    list_active_tasks = list_tasks active;
    list_unfinished_tasks = list_unfinished_tasks;
    pause_queue = asynq.pause;
    unpause_queue = asynq.unpause;
  }

-- Twelve hours in nanoseconds.
abbrev pub twelve_hours : ℕ
twelve_hours = 12 * 3600 * 1000000000

-- The update that the checks write.
abbrev pub give_up : String → String → UpdateRequest
give_up id why = record (update_of id) { status = "failed"; error_info = why }

-- The deletion's error is only logged.
drop_task : {W : Type 0} → TaskDistributor W → QueuedTask → Exec W (Unit {0})
drop_task distributor task = do _ ← distributor.delete_task task.queue task.id; pure tt

module _ {W : Type 0} (codec : PayloadCodec) (runtime : Runtime W) (distributor : TaskDistributor W)
    (webhook : Webhook W) where
  -- The rest of a round of `CheckArchivedTasks`, from the answer to the update.
  drop_if_due : QueuedTask → Result (Unit {0}) → Exec W (Unit {0})
  drop_if_due task (ok _) = drop_task distributor task
  drop_if_due task (err _) = do
    current_time ← runtime.now
    if ltb current_time (task.last_failed_at + twelve_hours)
        then pure tt
        else drop_task distributor task

  -- A round of the loop, from the task's payload: one that cannot be read is skipped.
  pub check_payload : QueuedTask → Result PayloadRunPrediction → Exec W (Unit {0})
  check_payload task (err _) = pure tt
  check_payload task (ok payload) = do
    updated ← webhook.update_task_info (give_up payload.id "failed due to system errors")
    drop_if_due task updated

  check_archived_task : QueuedTask → Exec W (Unit {0})
  check_archived_task task = check_payload task (codec.unmarshal task.payload)

  pub check_archived_from : List QueuedTask → Exec W (Unit {0})
  check_archived_from [] = pure tt
  check_archived_from (task ∷ tasks) = do check_archived_task task; check_archived_from tasks

  check_listed : Result (List QueuedTask) → Exec W (Unit {0})
  check_listed (err _) = pure tt
  check_listed (ok tasks) = check_archived_from tasks

  unfoldable pub check_archived_tasks : Exec W (Unit {0})
  unfolding drop_task drop_if_due check_payload check_archived_task check_archived_from check_listed
  check_archived_tasks = do
    tasks ← distributor.list_archived_tasks queue_critical
    check_listed tasks

module _ {W : Type 0} (codec : PayloadCodec) (distributor : TaskDistributor W)
    (webhook : Webhook W) where
  -- A round of the loop, from the task's payload.
  pub close_payload : QueuedTask → Result PayloadRunPrediction → Exec W (Unit {0})
  unfolding drop_task
  close_payload task (err _) = pure tt
  close_payload task (ok payload) = do
    _ ← webhook.update_task_info (give_up payload.id "the task queue was closed")
    drop_task distributor task

  close_task : QueuedTask → Exec W (Unit {0})
  close_task task = close_payload task (codec.unmarshal task.payload)

  pub close_tasks : List QueuedTask → Exec W (Unit {0})
  close_tasks [] = pure tt
  close_tasks (task ∷ tasks) = do close_task task; close_tasks tasks

  unfoldable pub shutdown_distributor : Exec W (Unit {0})
  unfolding close_payload close_task close_tasks
  shutdown_distributor = do
    scheduled_tasks ← distributor.list_scheduled_tasks queue_critical
    pending_tasks ← distributor.list_pending_tasks queue_critical
    retry_tasks ← distributor.list_retry_tasks queue_critical
    close_tasks (gather (gather (gather [] scheduled_tasks) pending_tasks) retry_tasks)

abbrev pub ids_or_none : Result (List String) → List String
ids_or_none (err _) = []
ids_or_none (ok ids) = ids

abbrev pub tasks_or_none : Result (List QueuedTask) → List QueuedTask
tasks_or_none (err _) = []
tasks_or_none (ok tasks) = tasks

module _ {W : Type 0} (config : Config) (runtime : Runtime W) (distributor : TaskDistributor W)
    (webhook : Webhook W) where
  -- The end of a round of the helper `checkTaskStatus`, from the record: how many records it gives
  -- up, 0 or 1. The error of the update is only logged.
  check_found : List String → String → String → Result TaskInfo → Exec W ℕ
  check_found unfinished status id (err _) = do
    _ ← webhook.update_task_info (record (give_up id "Unknown failure") { database_only = true })
    pure 1
  check_found unfinished status id (ok task) =
      if not (contains unfinished task.queue_id) && str_eq task.status status
      then (do _ ← webhook.update_task_info (give_up id "Unknown failure"); pure 1)
      else pure 0

  check_task : List String → String → String → Exec W ℕ
  check_task unfinished status id = do
    found ← webhook.get_task_info_object id
    check_found unfinished status id found

  check_tasks : List String → String → List String → Exec W ℕ
  check_tasks unfinished status [] = pure 0
  check_tasks unfinished status (id ∷ ids) = do
    here ← check_task unfinished status id
    later ← check_tasks unfinished status ids
    pure (here + later)

  pub wait_for_tasks : List String → List String → Exec W (Unit {0})
  wait_for_tasks [] [] = pure tt
  wait_for_tasks _ _ = runtime.sleep (of_seconds config.task_timeout)

  -- The end of `CheckTaskStatus`, after the wait.
  give_up_lost : List String → List String → Exec W ℕ
  give_up_lost pending_ids running_ids = do
    listed ← distributor.list_unfinished_tasks queue_critical
    let unfinished = map (λ (t : QueuedTask). t.id) (tasks_or_none listed)
    num_pending ← check_tasks unfinished "pending" pending_ids
    num_running ← check_tasks unfinished "running" running_ids
    pure (num_pending + num_running)

  check_model : Exec W ℕ
  check_model = do
    pending_found ← webhook.get_task_id_by_model_status config.model_name "pending"
    running_found ← webhook.get_task_id_by_model_status config.model_name "running"
    let pending_ids = ids_or_none pending_found
    let running_ids = ids_or_none running_found
    wait_for_tasks pending_ids running_ids
    give_up_lost pending_ids running_ids

  unfoldable pub check_task_status : Exec W ℕ
  unfolding check_found check_task check_tasks wait_for_tasks contains give_up_lost check_model
  check_task_status = if str_eq config.model_name "" then pure 0 else check_model
