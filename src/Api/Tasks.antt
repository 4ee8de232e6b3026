-- ===== src/Api/Tasks.antt =====
-- api/server.go: the handlers for tasks and for the queue, and the periodic checks. A bound task id
-- is the result of gin's `ShouldBindUri`.
pub mod Cancel
pub mod Quiet
use serving_agent.Common.{
  ℕ, zero, suc, ◌+◌, String, Bool, true, false, List, [], ◌∷◌, length, Exec, pure, ◌>>=◌, ◌>>◌,
  GoError, message, Result, ok, err, ◌<>◌, has_part, if◌then◌else◌,
}
use serving_agent.Platform.{Json, str, obj, field, end, update_of, TaskInfo, UpdateRequest}
use serving_agent.Worker.{
  Runtime, QueueInfo, queue_size, queue_critical, Metrics, PayloadCodec, QueuedTask,
}
use serving_agent.Worker.Distributor.{check_archived_tasks, check_task_status}
use serving_agent.Api.{Server, Reply, json, error_reply}
use serving_agent.Api.Queue.{ReplyCodec}

-- `checkLiveness` and `checkReadiness`
abbrev pub check_liveness : Reply
check_liveness = json 200 (obj (field "message" (str "API OK") end))

abbrev pub canceled_update : String → UpdateRequest
canceled_update id = record (update_of id) { status = "canceled" }

abbrev pub cancel_reply : TaskInfo → Result (Unit {0}) → Reply
cancel_reply task (err e) = error_reply 500 e
cancel_reply task (ok _) = json 200 (obj (field "id" (str task.id) end))

-- The size that `getQueueSize` reports: an error that names NOT_FOUND counts as an empty queue.
unfoldable pub size_reply : ReplyCodec → Result QueueInfo → Reply
unfolding has_part
size_reply codec (ok info) =
    json 200 (obj (field "queue_size" (codec.number (queue_size info)) end))
size_reply codec (err e) =
    if has_part (message e) "NOT_FOUND"
    then json 200 (obj (field "queue_size" (codec.number 0) end))
    else error_reply 500 e

abbrev pub cleared_reply : ReplyCodec → ℕ → ℕ → Reply
cleared_reply codec pending deleted = json 200 (
    obj (
      field "num_of_pending_tasks" (codec.number pending)
        (field "num_of_deleted_tasks" (codec.number deleted) end)))

module _ {W : Type 0} (codec : ReplyCodec) (server : Server W) where
  open server use {config, distributor, webhook}

  unfoldable pub get_task : Result String → Exec W Reply
  get_task (err e) = pure (error_reply 400 e)
  get_task (ok id) = do
    outputs ← webhook.get_task_info id
    elim outputs [ err e ↦ pure (error_reply 500 e) | ok body ↦ pure (json 200 body) ]

  -- The rest of `cancelTask`, from the deletion of the task `task`.
  cancel_record : TaskInfo → Result (Unit {0}) → Exec W Reply
  cancel_record task (err e) = pure (error_reply 403 e)
  cancel_record task (ok _) = do
    updated ← webhook.update_task_info (canceled_update task.id)
    pure (cancel_reply task updated)

  cancel_found : Result TaskInfo → Exec W Reply
  cancel_found (err e) = pure (error_reply 500 e)
  cancel_found (ok task) = do
    deleted ← distributor.delete_task queue_critical task.queue_id
    cancel_record task deleted

  unfoldable pub cancel_task : Result String → Exec W Reply
  unfolding cancel_record cancel_found
  cancel_task (err e) = pure (error_reply 400 e)
  cancel_task (ok id) = do found ← webhook.get_task_info_object id; cancel_found found

  unfoldable pub get_queue_size : Exec W Reply
  get_queue_size = do
    info ← distributor.get_task_queue_info queue_critical
    pure (size_reply codec info)

  unfoldable pub pause_queue : Exec W Reply
  pause_queue = do
    paused ← distributor.pause_queue queue_critical
    elim paused [
      | err e ↦ pure (error_reply 403 e)
      | ok _ ↦
          pure (json 200 (obj (field "info" (str ("queue " <> queue_critical <> " paused")) end)))
    ]

  unfoldable pub unpause_queue : Exec W Reply
  unpause_queue = do
    unpaused ← distributor.unpause_queue queue_critical
    elim unpaused [
      | err e ↦ pure (error_reply 403 e)
      | ok _ ↦ pure (
          json 200
            (obj (field "info" (str ("Unpaused queue " <> queue_critical <> " paused")) end)))
    ]

  -- A round of `deleteAllPendingTasks`: how many tasks it deletes, 0 or 1.
  delete_found : Result TaskInfo → Exec W ℕ
  delete_found (err _) = pure 0
  delete_found (ok task) = do
    deleted ← distributor.delete_task queue_critical task.queue_id
    elim deleted [ err _ ↦ pure 0 | ok _ ↦ pure 1 ]

  delete_pending : List String → Exec W ℕ
  delete_pending [] = pure 0
  delete_pending (id ∷ ids) = do
    found ← webhook.get_task_info_object id
    here ← delete_found found
    later ← delete_pending ids
    pure (here + later)

  delete_listed : Result (List String) → Exec W Reply
  delete_listed (err e) = pure (error_reply 500 e)
  delete_listed (ok ids) = do
    num_deleted ← delete_pending ids
    pure (cleared_reply codec (length ids) num_deleted)

  unfoldable pub delete_all_pending_tasks : Exec W Reply
  unfolding delete_found delete_pending delete_listed
  delete_all_pending_tasks = do
    found ← webhook.get_task_id_by_model_status config.model_name "pending"
    delete_listed found

  unfoldable pub list_unfinished_tasks : Exec W Reply
  list_unfinished_tasks = do
    tasks ← distributor.list_unfinished_tasks queue_critical
    elim tasks [
      | err e ↦ pure (error_reply 500 e)
      | ok listed ↦
          pure (json 200 (obj (field "num of unfinished tasks" (codec.number (length listed)) end)))
    ]

-- The size that `CheckQueueSize` and `asyncPredict` assume: any error counts as an empty queue.
abbrev pub assumed_size : Result QueueInfo → ℕ
assumed_size (err _) = 0
assumed_size (ok info) = queue_size info

module _ {W : Type 0} (codec : PayloadCodec) (runtime : Runtime W) (metrics : Metrics W)
    (server : Server W) where
  open server use {config, distributor, webhook}

  -- One round of the endless loop `CheckQueueSize`, less its pause of thirty seconds.
  unfoldable pub check_queue_size : Exec W (Unit {0})
  check_queue_size = do
    info ← distributor.get_task_queue_info queue_critical
    metrics.queue_size_set (assumed_size info)
    metrics.queue_size_ratio_set (assumed_size info) config.max_queue_size

  unfoldable pub periodic_check : Exec W (Unit {0})
  periodic_check = do
    check_archived_tasks codec runtime distributor webhook
    num_failed ← check_task_status config runtime distributor webhook
    metrics.task_status_set_to_failed_set num_failed
