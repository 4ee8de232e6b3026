-- ===== src/Worker/Predict.antt =====
-- worker/predict.go: putting a prediction task into the queue, and running one.
pub mod Settles
pub mod Completes
pub mod Protocol
pub mod Telling
pub mod Stored
use serving_agent.Common.{
  ℕ, String, Option, none, some, Exec, pure, ◌>>=◌, ◌>>◌, GoError, plain, wrap, message, Result, ok,
  err, ◌<>◌, str_eq, remove_char, if◌then◌else◌,
}
use serving_agent.Config.{Config}
use serving_agent.Platform.{
  Json, str, GoMap, get_key, delete_key, json_of_map, InferResponse, error_text, UpdateRequest,
  update_of, Served, served, failure, panic, Platform, Webhook, Format,
}
use serving_agent.Worker.{PayloadRunPrediction, TaskOptions, Asynq, Metrics, PayloadCodec}

-- `DistributeTaskRunPrediction`
module _ {W : Type 0} (config : Config) (codec : PayloadCodec) (asynq : Asynq W) where
  abbrev pub enqueued : Result String → Result String
  enqueued (err e) = err (wrap "failed to enqueue task: " e)
  enqueued (ok id) = ok id

  enqueue_payload : TaskOptions → Result String → Exec W (Result String)
  enqueue_payload opts (err e) = pure (err (wrap "failed to marshal task payload: " e))
  enqueue_payload opts (ok bytes) = do
    info ← asynq.enqueue ("task:" <> config.task_type_name) bytes opts
    pure (enqueued info)

  unfoldable pub distribute_task_run_prediction :
      PayloadRunPrediction → TaskOptions → Exec W (Result String)
  unfolding enqueue_payload
  distribute_task_run_prediction payload opts = enqueue_payload opts (codec.marshal payload)

-- What a task handler comes to: asynq retries an error unless it wraps `SkipRetry`.
pub data TaskResult : Type 0 where
  done : TaskResult
  failed : GoError → TaskResult
  failed_skip_retry : String → TaskResult
  panicked : String → TaskResult

-- `fmt.Sprintf("%v", v)` of a value found in the outputs, or the zero value.
unfoldable pub running_time_of : Format → Option Json → String
running_time_of format none = ""
running_time_of format (some v) = format.sprint v

-- The update for a successful prediction. `info.Outputs` and `response.Outputs` are one map, so
-- the running time is deleted from both.
unfoldable pub succeeded_update : Format → String → InferResponse → UpdateRequest
succeeded_update format id response =
    let found = get_key "running_time" response.outputs in
    record (update_of id) {
      status = "succeeded";
      running_time = running_time_of format found;
      outputs = json_of_map (delete_key "running_time" response.outputs);
    }

-- The update for a failed prediction.
unfoldable pub failed_update : String → String → UpdateRequest
failed_update id info = record (update_of id) { status = "failed"; error_info = info }

-- `ProcessTaskRunPrediction`
module _ {W : Type 0} (format : Format) (codec : PayloadCodec) (webhook : Webhook W)
    (platform : Platform W) (metrics : Metrics W) where
  -- The gauge of running times: the text's letter `s` is dropped, and what is no number is skipped.
  record_predict_time : String → Exec W (Unit {0})
  record_predict_time time =
      if str_eq time "" then pure tt else elim (format.parse_float (remove_char b's' time)) [
        | none ↦ pure tt
        | some seconds ↦ metrics.predict_time_set seconds
      ]

  -- The end of the function, after the prediction has returned.
  settle : String → Served InferResponse → Exec W TaskResult
  settle id (panic m) = pure (panicked m)
  settle id (failure e) = do
    updated ← webhook.update_task_info (failed_update id (error_text e))
    elim updated [
      | err _ ↦ pure (failed (plain "failed to update task info"))
      | ok _ ↦ do metrics.predict_failure_inc; pure done
    ]
  settle id (served response) = do
    let info = succeeded_update format id response
    record_predict_time info.running_time
    updated ← webhook.update_task_info info
    elim updated [ err _ ↦ pure (failed (plain "failed to update task info")) | ok _ ↦ pure done ]

  run_payload : PayloadRunPrediction → Exec W TaskResult
  run_payload payload = do
    updated ← webhook.update_task_info (record (update_of payload.id) { status = "running" })
    elim updated [
      | err _ ↦ pure (failed (plain "failed to update task info"))
      | ok _ ↦ do
        response ← platform.predict payload.request payload.api_version
        settle payload.id response
    ]

  unfoldable pub process_task_run_prediction : String → Exec W TaskResult
  unfolding record_predict_time settle run_payload
  process_task_run_prediction bytes = elim (codec.unmarshal bytes) [
    | err _ ↦ pure (failed_skip_retry "failed to unmarshal payload: ")
    | ok payload ↦ run_payload payload
  ]
