-- ===== src/System/Network.antt =====
-- The worker with the client of the webhook service, over any network.
use serving_agent.Common.{String, ◌≡◌, ◌⊎◌, Exec, ok, List}
use serving_agent.Http.{Http, Fetcher}
use serving_agent.Http.Record.{HttpCall, HttpWorld}
use serving_agent.Platform.{Platform, Format, JsonCodec, UpdateRequest}
use serving_agent.Platform.InternalWebhook.{InternalWebhook, TaskCodec}
use serving_agent.Platform.InternalWebhook.Requests.{client}
use serving_agent.Platform.InternalWebhook.Updates.{Confirmed, update_task_info-Confirmed}
use serving_agent.Worker.{PayloadCodec, PayloadRunPrediction, Metrics}
use serving_agent.Worker.Predict.{process_task_run_prediction, TaskResult, done}
use serving_agent.Worker.Predict.Telling.{process-Ended}

-- The last exchange, after those in some log, told the webhook service of this update.
abbrev pub IsTold : JsonCodec → InternalWebhook → UpdateRequest → List HttpCall → Type 0
IsTold codec webhook u log' = (log : List HttpCall) × Confirmed codec webhook u log log'

-- The webhook service was told last that this task has ended.
abbrev pub HasEnded : JsonCodec → InternalWebhook → String → List HttpCall → Type 0
HasEnded codec webhook id log =
    (u : UpdateRequest) × (u.id ≡ id)
    × ((u.status ≡ "succeeded") ⊎ (u.status ≡ "failed"))
    × IsTold codec webhook u log

-- Metrics send nothing.
abbrev unlogged : {E : Type 0} → Exec E (Unit {0}) → Exec (HttpWorld E) (Unit {0})
unlogged f w = let (_, e) = f w.env in (tt, record w { env = e })

abbrev pub unlogged_metrics : {E : Type 0} → Metrics E → Metrics (HttpWorld E)
unlogged_metrics m = record {
  predict_failure_inc = unlogged m.predict_failure_inc;
  predict_time_set = λ x. unlogged (m.predict_time_set x);
  queue_size_set = λ n. unlogged (m.queue_size_set n);
  queue_size_ratio_set = λ n k. unlogged (m.queue_size_ratio_set n k);
  task_status_set_to_failed_set = λ n. unlogged (m.task_status_set_to_failed_set n);
}

module _ {E : Type 0} (format : Format) (payload_codec : PayloadCodec) (codec : JsonCodec)
    (tasks : TaskCodec) (http : Http E) (fetcher : Fetcher E) (webhook : InternalWebhook)
    (platform : Platform (HttpWorld E)) (metrics : Metrics E) where
  abbrev pub process_over : String → HttpWorld E → TaskResult × HttpWorld E
  process_over bytes w =
      process_task_run_prediction format payload_codec
        (client format codec tasks http fetcher webhook) platform (unlogged_metrics metrics) bytes w

  -- If the worker has the client of the webhook service over any network, with any platform and
  -- with metrics that send nothing, and the payload can be read, then when it reports the task as
  -- done, its last exchange was a PUT request to the service's address with the JSON of an update
  -- of the payload's record to `succeeded` or `failed`, and was answered with status 200.
  pub process_over-HasEnded :
      (bytes : String) (payload : PayloadRunPrediction) (w : HttpWorld E)
      → payload_codec.unmarshal bytes ≡ ok payload
      → (process_over bytes w).0 ≡ done
      → HasEnded codec webhook payload.id (process_over bytes w).1.log
  process_over-HasEnded bytes payload w readable completed =
      process-Ended format payload_codec (client format codec tasks http fetcher webhook) platform
        (unlogged_metrics metrics) (λ u w'. IsTold codec webhook u w'.log)
        (λ u w' h.
          (w'.log, (update_task_info-Confirmed format codec tasks http fetcher webhook u w').0 h))
        (λ u w' h. h) bytes payload w readable completed
