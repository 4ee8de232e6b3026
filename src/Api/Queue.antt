-- ===== src/Api/Queue.antt =====
-- api/v1.go `asyncPredict`, and the handlers of api/server.go that read or change the task queue.
pub mod Admission
pub mod Runs
pub mod Protocol
use serving_agent.Common.{
  of_seconds, ℕ, ◌+◌, String, Bool, true, false, none, some, Option, List, [], ◌∷◌, length, Exec,
  pure, ◌>>=◌, GoError, message, Result, ok, err, ℤ, pos, leb_ℤ, plain, ◌<>◌, has_part, itoa,
  if◌then◌else◌,
}
use serving_agent.Platform.{Json, str, num, obj, field, end, null, InferRequest, update_of}
use serving_agent.Worker.{
  Runtime, QueueInfo, queue_size, queue_critical, PayloadRunPrediction, TaskOptions, Metrics,
}
use serving_agent.Worker.Predict.{failed_update}
use serving_agent.Api.{
  Server, Reply, json, panicked, error_reply, error_response, with_upload_webhook, nil_map_write,
}

-- What the handlers take from Go's JSON: `Unmarshal` into a `map[string]string`, of which only the
-- entry `id` is read ("" where there is none), and a number as a JSON value.
pub record ReplyCodec : Type 0 where
  pub id_of_created : String → Result String
  pub number : ℕ → Json

module _ {W : Type 0} (codec : ReplyCodec) (runtime : Runtime W) (server : Server W) where
  open server use {config, distributor, webhook}

  -- The end of `asyncPredict`, after the task was put into the queue or was refused there.
  link : String → String → Result String → Exec W Reply
  link id output (err e) = do
    updated ← webhook.update_task_info (failed_update id "task queue failed")
    elim updated [ err e' ↦ pure (error_reply 500 e') | ok _ ↦ pure (error_reply 500 e) ]
  link id output (ok task_id) = do
    updated ← webhook.update_task_info (record (update_of id) { queue_id = task_id })
    elim updated [
      | err e ↦ do _ ← distributor.delete_task queue_critical task_id; pure (error_reply 500 e)
      | ok _ ↦ pure (json 200 (obj (field "id" (str output) end)))
    ]

  unfoldable pub task_options : TaskOptions
  task_options = record {
    max_retry = 1;
    queue = queue_critical;
    timeout = of_seconds config.task_timeout;
  }

  submit : InferRequest → String → String → Result String → Exec W Reply
  submit req id uid (err e) = pure (error_reply 500 e)
  submit req id uid (ok res) = elim (codec.id_of_created res) [
    | err e ↦ pure (error_reply 500 e)
    | ok output ↦ do
      queued ←
          distributor.distribute_task_run_prediction
            (record { request = req; id = id; api_version = "v1" }) task_options
      link id output queued
  ]

  create_task : InferRequest → String → String → ℕ → Exec W Reply
  create_task req id uid size = do
    created ← webhook.create_new_task id uid req.model_name "" size
    submit req id uid created

  -- A queue whose information cannot be read counts as empty.
  admit : InferRequest → String → String → Result QueueInfo → Exec W Reply
  admit req id uid (err _) = create_task req id uid 0
  admit req id uid (ok info) =
      if leb_ℤ config.max_queue_size (pos (queue_size info))
      then pure
          (error_reply 429 (plain "the prediction task queue is full, please wait for a while"))
      else create_task req id uid (queue_size info)

  unfoldable pub async_predict : Result InferRequest → String → Exec W Reply
  unfolding link task_options submit create_task admit
  async_predict (err e) uid = pure (error_reply 400 e)
  async_predict (ok req) uid = elim (with_upload_webhook config req) [
    | none ↦ pure (panicked nil_map_write)
    | some req' ↦ do
      id ← runtime.new_uuid
      info ← distributor.get_task_queue_info queue_critical
      admit req' id uid info
  ]
