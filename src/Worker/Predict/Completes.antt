-- ===== src/Worker/Predict/Completes.antt =====
-- With services that answer, a run of `ProcessTaskRunPrediction` completes its task.
use serving_agent.Common.{String, ◌≡◌, ◌≢◌, refl, arith, eq_iff, ok, ◌+◌}
use serving_agent.Platform.{
  Platform, Webhook, Format, UpdateRequest, InferRequest, InferResponse, Served, served, failure,
  panic, update_of, error_text,
}
use serving_agent.Worker.{PayloadCodec, Metrics, PayloadRunPrediction}
use serving_agent.Worker.Predict.{
  process_task_run_prediction, TaskResult, done, succeeded_update, failed_update, settle,
  record_predict_time, run_payload,
}
use serving_agent.Worker.Predict.Settles.{run_process, process_in}
use serving_agent.Trace.{IsTerminal, World, start, status_of, num_predictions}
use serving_agent.Trace.Record.{recorded_webhook, recorded_platform, recorded_metrics}

-- The webhook service acknowledges every update.
abbrev pub Acknowledges : {E : Type 0} → Webhook E → Type 0
Acknowledges {E} webhook = (u : UpdateRequest) (e : E) → (webhook.update_task_info u e).0 ≡ ok tt

-- No prediction of the platform panics.
abbrev pub Returns : {E : Type 0} → Platform E → Type 0
Returns {E} platform =
    (req : InferRequest) (version : String) (e : E) (m : String)
    → (platform.predict req version e).0 ≢ panic m

module _ {E : Type 0} (format : Format) (codec : PayloadCodec) (webhook : Webhook E)
    (platform : Platform E) (metrics : Metrics E) where
  abbrev run_settle : String → Served InferResponse → World E → TaskResult × World E
  run_settle id result w =
      settle format codec (recorded_webhook webhook) (recorded_platform platform)
        (recorded_metrics metrics) id result w

  abbrev timed : String → World E → World E
  timed time w =
      (record_predict_time format codec (recorded_webhook webhook) (recorded_platform platform)
        (recorded_metrics metrics) time w).1

  timed-num_predictions :
      (time : String) (w : World E) → num_predictions (timed time w).calls ≡ num_predictions w.calls
  unfolding record_predict_time
  timed-num_predictions time w = ground arith

  settle-completes :
      (id : String) (result : Served InferResponse) (w : World E)
      → Acknowledges webhook
      → ((m : String) → result ≢ panic m)
      → let (r, w') = run_settle id result w in
        (r ≡ done)
        × IsTerminal (status_of id w'.calls)
        × (num_predictions w'.calls ≡ num_predictions w.calls)
  unfolding settle succeeded_update failed_update
  settle-completes id (panic m) w answers returns = absurd (returns m refl)
  settle-completes id (failure f) w answers returns =
      ground
        (arith, answers (failed_update id (error_text f)) w.env, eq_iff id id, eq_iff "failed" "")
  settle-completes id (served response) w answers returns =
      let u = succeeded_update format id response in
      let w₁ = timed u.running_time w in
      ground (
        arith,
        answers u w₁.env,
        timed-num_predictions u.running_time w,
        eq_iff id id,
        eq_iff "succeeded" "",
      )

  -- A run from any world completes its task, and asks the platform once more than before.
  pub process_in-completes :
      (bytes : String) (payload : PayloadRunPrediction) (w : World E)
      → codec.unmarshal bytes ≡ ok payload
      → Acknowledges webhook
      → Returns platform
      → let (r, w') = process_in format codec webhook platform metrics bytes w in
        (r ≡ done)
        × IsTerminal (status_of payload.id w'.calls)
        × (num_predictions w'.calls ≡ num_predictions w.calls + 1)
  unfolding process_task_run_prediction run_payload
  process_in-completes bytes payload w decoded answers returns =
      let running : UpdateRequest = record (update_of payload.id) { status = "running" } in
      let w₁ = ((recorded_webhook webhook).update_task_info running w).1 in
      let (response, w₂) =
        (recorded_platform platform).predict payload.request payload.api_version w₁ in
      rw (decoded, process_task_run_prediction)
        (ground (
          arith,
          answers running w.env,
          settle-completes payload.id response w₂ answers
              (returns payload.request payload.api_version w₁.env),
        ))

  -- If the payload can be read, the webhook acknowledges every update and no prediction of the
  -- platform panics, then the worker reports the task as done, and the last acknowledged status
  -- of its record is `succeeded` or `failed`.
  pub process-completes :
      (bytes : String) (payload : PayloadRunPrediction) (e : E)
      → codec.unmarshal bytes ≡ ok payload
      → Acknowledges webhook
      → Returns platform
      → let (r, w) = run_process format codec webhook platform metrics bytes e in
        (r ≡ done) × IsTerminal (status_of payload.id w.calls)
  process-completes bytes payload e decoded answers returns =
      let (completed, final, _) =
        process_in-completes bytes payload (start e) decoded answers returns in
      (completed, final)
