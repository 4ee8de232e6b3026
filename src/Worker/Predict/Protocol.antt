-- ===== src/Worker/Predict/Protocol.antt =====
-- `ProcessTaskRunPrediction` keeps to the protocol of a prediction.
use serving_agent.Common.{String, ◌≡◌, ◌⊎◌, arith, eq_iff, ok}
use serving_agent.Platform.{Platform, Webhook, Format}
use serving_agent.Worker.{PayloadCodec, Metrics, PayloadRunPrediction}
use serving_agent.Worker.Predict.{
  process_task_run_prediction, TaskResult, done, failed, failed_skip_retry, panicked,
}
use serving_agent.Worker.Predict.Settles.{run_process}
use serving_agent.Trace.Protocol.{Phase, refused, crashed, closed, lost, phase_of, Conforms}

-- What a result of the handler tells of the phase.
abbrev pub EndsIn : TaskResult → Phase → Type 0
EndsIn done p = p ≡ closed
EndsIn (failed e) p = (p ≡ refused) ⊎ (p ≡ lost)
EndsIn (failed_skip_retry m) p = ⊥
EndsIn (panicked m) p = p ≡ crashed

module _ {E : Type 0} (format : Format) (codec : PayloadCodec) (webhook : Webhook E)
    (platform : Platform E) (metrics : Metrics E) where
  -- For every payload that can be read and any services, a run of `ProcessTaskRunPrediction` is a
  -- run of the protocol of a prediction for the payload's id, request and version, with no other
  -- call but those of metrics: the record is marked as running; once that is acknowledged, the
  -- platform is asked once; and its answer, if it does not panic, is sent as the one update that
  -- is due. The handler reports the task as done if the protocol is closed, an error that does
  -- not skip the retry if the first or the last update was refused, and a panic if the platform
  -- crashed; it never skips the retry.
  pub process-Refines :
      (bytes : String) (payload : PayloadRunPrediction) (e : E)
      → codec.unmarshal bytes ≡ ok payload
      → let (r, w) = run_process format codec webhook platform metrics bytes e in
        EndsIn r (phase_of format payload.id payload.request payload.api_version w.calls)
        × Conforms format payload.id payload.request payload.api_version w.calls
  unfolding process_task_run_prediction
  process-Refines bytes payload e decoded =
      ground (arith, eq_iff payload.id payload.id, eq_iff "running" "running")
