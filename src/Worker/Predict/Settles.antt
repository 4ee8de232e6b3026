-- ===== src/Worker/Predict/Settles.antt =====
-- What a run of `ProcessTaskRunPrediction` does to the record of its task, over any services.
use serving_agent.Common.{List, String, ◌≡◌, some, arith, eq_iff, ok}
use serving_agent.Platform.{Platform, Webhook, Format}
use serving_agent.Worker.{PayloadCodec, Metrics, PayloadRunPrediction}
use serving_agent.Worker.Predict.{
  process_task_run_prediction, TaskResult, done, failed, failed_skip_retry, panicked,
  succeeded_update, failed_update,
}
use serving_agent.Trace.{
  Call, PredictsRunning, IsTerminal, UpdateLost, num_predictions, World, start, status_of,
}
use serving_agent.Trace.Record.{recorded_webhook, recorded_platform, recorded_metrics}

-- What the result of the handler tells of the calls that it made for record `id`.
abbrev pub Settled : String → TaskResult → List Call → Type 0
Settled id done cs = IsTerminal (status_of id cs) × (num_predictions cs ≡ 1)
Settled id (failed e) cs = UpdateLost id cs
Settled id (failed_skip_retry m) cs = ⊥
Settled id (panicked m) cs = (status_of id cs ≡ some "running") × (num_predictions cs ≡ 1)

module _ {E : Type 0} (format : Format) (codec : PayloadCodec) (webhook : Webhook E)
    (platform : Platform E) (metrics : Metrics E) where
  abbrev pub process_in : String → World E → TaskResult × World E
  process_in bytes w =
      process_task_run_prediction format codec (recorded_webhook webhook)
        (recorded_platform platform) (recorded_metrics metrics) bytes w

  abbrev pub run_process : String → E → TaskResult × World E
  run_process bytes e = process_in bytes (start e)

  -- For every payload that can be read and any services: when the handler reports the task as
  -- done, the last acknowledged status of its record is `succeeded` or `failed` and the platform
  -- was asked once; when it returns an error, the newest call is an update of this record that
  -- the webhook refused; it never asks asynq to skip the retry; and when the platform panics, the
  -- last acknowledged status is `running` and the platform was asked once.
  pub process-Settled :
      (bytes : String) (payload : PayloadRunPrediction) (e : E)
      → codec.unmarshal bytes ≡ ok payload
      → Settled payload.id (run_process bytes e).0 (run_process bytes e).1.calls
  unfolding process_task_run_prediction succeeded_update failed_update
  process-Settled bytes payload e decoded = ground (
    arith,
    eq_iff payload.id payload.id,
    eq_iff "failed" "",
    eq_iff "succeeded" "",
    eq_iff "running" "",
  )

  -- For every payload that can be read, the worker asks the platform only while the last
  -- acknowledged status of the task's record is `running`.
  pub process-PredictsRunning :
      (bytes : String) (payload : PayloadRunPrediction) (e : E)
      → codec.unmarshal bytes ≡ ok payload
      → PredictsRunning payload.id (run_process bytes e).1.calls
  unfolding process_task_run_prediction succeeded_update failed_update
  process-PredictsRunning bytes payload e decoded = ground (
    arith,
    eq_iff payload.id payload.id,
    eq_iff "failed" "",
    eq_iff "succeeded" "",
    eq_iff "running" "",
  )
