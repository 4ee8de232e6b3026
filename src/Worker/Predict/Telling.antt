-- ===== src/Worker/Predict/Telling.antt =====
-- When the worker reports a task as done, the webhook service has been told of its end.
use serving_agent.Common.{
  String, ◌≡◌, refl, ◌⊎◌, inl, inr, Exec, ok, err, plain, pure, Result, ◌>>=◌, ◌>>◌,
}
use serving_agent.Platform.{
  Platform, Webhook, Format, UpdateRequest, InferResponse, Served, served, failure, panic,
  update_of, error_text,
}
use serving_agent.Worker.{PayloadCodec, PayloadRunPrediction, Metrics}
use serving_agent.Worker.Predict.{
  process_task_run_prediction, TaskResult, done, failed, succeeded_update, failed_update, settle,
  record_predict_time, run_payload,
}

-- Any webhook service which, when it acknowledges an update, has been told of it, and metrics that
-- leave alone what it has been told.
module _ {W : Type 0} (format : Format) (codec : PayloadCodec) (webhook : Webhook W)
    (platform : Platform W) (metrics : Metrics W) (Told : UpdateRequest → W → Type 0)
    (tells : (u : UpdateRequest) (w : W)
      → let (r, w') = webhook.update_task_info u w in r ≡ ok tt → Told u w')
    (quiet : (u : UpdateRequest) (w : W)
      → Told u w
      → Told u (metrics.predict_failure_inc w).1) where
  -- The last that it was told is that this task has ended.
  abbrev pub Ended : String → W → Type 0
  Ended id w =
      (u : UpdateRequest) × (u.id ≡ id)
      × ((u.status ≡ "succeeded") ⊎ (u.status ≡ "failed"))
      × Told u w

  -- What follows an update, whose refusal is an error.
  abbrev acted : Exec W TaskResult → Result (Unit {0}) → Exec W TaskResult
  acted rest updated = elim updated [
    | err _ ↦ pure (failed (plain "failed to update task info"))
    | ok _ ↦ rest
  ]

  acted-Ended :
      (id : String) (u : UpdateRequest) (rest : Exec W TaskResult) (updated : Result (Unit {0}))
      (w : W)
      → u.id ≡ id
      → (u.status ≡ "succeeded") ⊎ (u.status ≡ "failed")
      → ((w' : W) → Told u w' → Told u (rest w').1)
      → (updated ≡ ok tt → Told u w)
      → let (r, w') = acted rest updated w in r ≡ done → Ended id w'
  acted-Ended id u rest (err x) w same final keeps told = λ h. cc
  acted-Ended id u rest (ok x) w same final keeps told = λ h. (u, same, final, keeps w (told refl))

  settle-Ended :
      (id : String) (result : Served InferResponse) (w : W)
      → let (r, w') = settle format codec webhook platform metrics id result w in
        r ≡ done → Ended id w'
  unfolding settle succeeded_update failed_update
  settle-Ended id (panic m) w = λ h. cc
  settle-Ended id (failure f) w =
      let u = failed_update id (error_text f) in
      let (updated, w₁) = webhook.update_task_info u w in
      acted-Ended id u (metrics.predict_failure_inc >> pure done) updated w₁ refl (inr refl)
        (quiet u) (tells u w)
  settle-Ended id (served response) w =
      let u = succeeded_update format id response in
      let w₁ = (record_predict_time format codec webhook platform metrics u.running_time w).1 in
      let (updated, w₂) = webhook.update_task_info u w₁ in
      acted-Ended id u (pure done) updated w₂ refl (inl refl) (λ w' h. h) (tells u w₁)

  started-Ended :
      (payload : PayloadRunPrediction) (updated : Result (Unit {0})) (w : W)
      → let (r, w') =
          acted
            (do
              response ← platform.predict payload.request payload.api_version
              settle format codec webhook platform metrics payload.id response)
            updated
            w in
        r ≡ done → Ended payload.id w'
  started-Ended payload (err x) w = λ h. cc
  started-Ended payload (ok x) w =
      let (result, w₁) = platform.predict payload.request payload.api_version w in
      settle-Ended payload.id result w₁

  pub process-Ended :
      (bytes : String) (payload : PayloadRunPrediction) (w : W)
      → codec.unmarshal bytes ≡ ok payload
      → let (r, w') = process_task_run_prediction format codec webhook platform metrics bytes w in
        r ≡ done → Ended payload.id w'
  unfolding process_task_run_prediction run_payload
  process-Ended bytes payload w decoded =
      let u = record (update_of payload.id) { status = "running" } in
      let (updated, w₁) = webhook.update_task_info u w in
      rw (decoded, process_task_run_prediction) (started-Ended payload updated w₁)
