-- ===== src/Api/Predict.antt =====
-- api/v1.go: the handlers `predict`, `generate` and `docs`. A bound request is the result of gin's
-- `ShouldBindJSON`, and `uid` the header `UID`.
pub mod Records
pub mod Protocol
pub mod Stream
use serving_agent.Common.{
  ℕ, String, Bool, true, false, none, some, Exec, pure, ◌>>=◌, Result, ok, err,
}
use serving_agent.Platform.{
  InferRequest, InferResponse, DocsRequest, error_text, update_of, Served, served, failure, panic,
  Format,
}
use serving_agent.Worker.{Runtime}
use serving_agent.Worker.Predict.{succeeded_update, failed_update}
use serving_agent.Api.{
  ResponseWriter, after_header, Server, Reply, json, not_found, streamed, panicked, error_reply,
  convert_error_code, with_upload_webhook, nil_map_write,
}

module _ {W : Type 0} (format : Format) (runtime : Runtime W) (server : Server W) where
  open server use {config, platform, webhook}

  -- The end of `predict`: the record is updated and read back.
  finish : String → Served InferResponse → Exec W Reply
  finish id (panic m) = pure (panicked m)
  finish id (failure e) = do
    _ ← webhook.update_task_info (failed_update id (error_text e))
    pure (convert_error_code e)
  finish id (served response) = do
    updated ← webhook.update_task_info (succeeded_update format id response)
    elim updated [
      | err e ↦ pure (error_reply 500 e)
      | ok _ ↦ do
        outputs ← webhook.get_task_info id
        elim outputs [ err e ↦ pure (error_reply 500 e) | ok body ↦ pure (json 200 body) ]
    ]

  start_prediction : InferRequest → String → Exec W Reply
  start_prediction req uid = do
    id ← runtime.new_uuid
    created ← webhook.create_new_task id uid req.model_name "running" 0
    elim created [
      | err e ↦ pure (error_reply 500 e)
      | ok _ ↦ do response ← platform.predict req "v1"; finish id response
    ]

  unfoldable pub predict : Result InferRequest → String → Exec W Reply
  unfolding finish start_prediction
  predict (err e) uid = pure (error_reply 400 e)
  predict (ok req) uid = elim (with_upload_webhook config req) [
    | none ↦ pure (panicked nil_map_write)
    | some req' ↦ start_prediction req' uid
  ]

  -- The end of `generate`, where `written` says whether the header has been sent; the running time
  -- is that of the clock, in nanoseconds.
  finish_stream : Bool → String → ℕ → Served (Unit {0}) → Exec W Reply
  finish_stream written id started (panic m) = pure (panicked m)
  finish_stream written id started (failure e) = do
    _ ← webhook.update_task_info (failed_update id (error_text e))
    pure (after_header written (convert_error_code e))
  finish_stream written id started (served _) = do
    ended ← runtime.now
    updated ← webhook.update_task_info (record (update_of id) {
      status = "succeeded";
      running_time = format.seconds started ended;
    })
    elim updated [ err e ↦ pure (after_header written (error_reply 500 e)) | ok _ ↦ pure streamed ]

  start_stream : ResponseWriter → Bool → String → InferRequest → Exec W Reply
  start_stream writer false id req = pure not_found
  start_stream writer true id req = do
    started ← runtime.now
    result ← platform.generate req "v1"
    finish_stream writer.written id started result

  create_stream : ResponseWriter → InferRequest → String → Exec W Reply
  create_stream writer req uid = do
    id ← runtime.new_uuid
    created ← webhook.create_new_task id uid req.model_name "running" 0
    elim created [
      | err e ↦ pure (error_reply 500 e)
      | ok _ ↦ start_stream writer writer.flushes id req
    ]

  unfoldable pub generate : ResponseWriter → Result InferRequest → String → Exec W Reply
  unfolding finish_stream start_stream create_stream
  generate writer (err e) uid = pure (error_reply 400 e)
  generate writer (ok req) uid = elim (with_upload_webhook config req) [
    | none ↦ pure (panicked nil_map_write)
    | some req' ↦ create_stream writer req' uid
  ]

  unfoldable pub docs : Result DocsRequest → Exec W Reply
  docs (err e) = pure (error_reply 400 e)
  docs (ok req) = do
    response ← platform.docs req
    elim response [
      | panic m ↦ pure (panicked m)
      | failure e ↦ pure (convert_error_code e)
      | served body ↦ pure (json 200 body)
    ]
