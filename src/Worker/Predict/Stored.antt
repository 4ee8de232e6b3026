-- ===== src/Worker/Predict/Stored.antt =====
-- What a run of `ProcessTaskRunPrediction` leaves in a webhook service that keeps what it is told.
use serving_agent.Common.{
  Result, ℕ, String, ◌≡◌, ◌≢◌, ◌⊎◌, refl, pure, sym, subst, ◌∙◌, false, Option, none, some, ok,
  arith, eq_iff, str_eq, Bool-cases, inl, inr, remove_char,
}
use serving_agent.Platform.{
  Platform, Webhook, Format, Served, served, failure, panic, InferResponse, InferRequest,
  error_text, update_of,
}
use serving_agent.Worker.{PayloadCodec, Metrics, PayloadRunPrediction}
use serving_agent.Worker.Predict.{
  TaskResult, done, failed, failed_skip_retry, panicked, succeeded_update, failed_update,
  record_predict_time, settle, run_payload, process_task_run_prediction,
}
use serving_agent.Worker.Distributor.Records.{Entry, Copies, RecordStore}

abbrev status_set : String → Option Entry → Option Entry
status_set status none = none
status_set status (some t) = some (record t { status = status })

abbrev pub with_status : String → Copies → Copies
with_status status (shown, row) = (status_set status shown, status_set status row)

-- What the result of the handler tells of the record, before and after. After an error nothing is
-- known, as the update that was refused may have taken effect or not.
abbrev pub Leaves : TaskResult → Copies → Copies → Type 0
Leaves done v v' = (v' ≡ with_status "succeeded" v) ⊎ (v' ≡ with_status "failed" v)
Leaves (failed e) v v' = Unit
Leaves (failed_skip_retry m) v v' = ⊥
Leaves (panicked m) v v' = v' ≡ with_status "running" v

-- Predictions and metrics leave the records alone.
pub record LeavesRecords {E : Type 0} (copies : E → String → Copies) (platform : Platform E)
    (metrics : Metrics E) : Type 0 where
  pub copies-predict :
      (req : InferRequest) (version k : String) (e : E)
      → copies (platform.predict req version e).1 k ≡ copies e k
  pub copies-failure_inc :
      (k : String) (e : E) → copies (metrics.predict_failure_inc e).1 k ≡ copies e k
  pub copies-time_set :
      (n : ℕ) (k : String) (e : E) → copies (metrics.predict_time_set n e).1 k ≡ copies e k

module _ {E : Type 0} (format : Format) (codec : PayloadCodec) (webhook : Webhook E)
    (platform : Platform E) (metrics : Metrics E) (store : RecordStore webhook)
    (others : LeavesRecords store.copies platform metrics) where
  open store use {copies, copies-update, copies-others}
  open others use {copies-predict, copies-failure_inc, copies-time_set}

  entry-parsed_time :
      (parsed : Option ℕ) (k : String) (e : E)
      → let set : E → Unit {0} × E = elim parsed [
        | none ↦ pure tt
        | some n ↦ metrics.predict_time_set n
      ] in
        copies (set e).1 k ≡ copies e k
  entry-parsed_time none k e = refl
  entry-parsed_time (some n) k e = copies-time_set n k e

  entry-record_time :
      (time k : String) (e : E)
      → copies (record_predict_time format codec webhook platform metrics time e).1 k ≡ copies e k
  unfolding record_predict_time
  entry-record_time time k e = elim (Bool-cases (str_eq time "")) [
    | inl missing ↦ rw missing refl
    | inr present ↦ rw present (entry-parsed_time (format.parse_float (remove_char b's' time)) k e)
  ]

  settle-own :
      (id : String) (r : Served InferResponse) (e : E) (v : Copies)
      → copies e id ≡ with_status "running" v
      → let (res, e') = settle format codec webhook platform metrics id r e in
        Leaves res v (copies e' id)
  unfolding settle succeeded_update failed_update
  settle-own id (panic m) e v is = is
  settle-own id (failure x) e v is =
      let u = failed_update id (error_text x) in
      let e₁ = (webhook.update_task_info u e).1 in
      ground
        (arith, eq_iff id id, eq_iff "failed" "", is, copies-update u e, copies-failure_inc id e₁)
  settle-own id (served response) e v is =
      let u = succeeded_update format id response in
      let e₁ = (record_predict_time format codec webhook platform metrics u.running_time e).1 in
      ground (
        arith,
        eq_iff id id,
        eq_iff "succeeded" "",
        is,
        entry-record_time u.running_time id e,
        copies-update u e₁,
      )

  settle-other :
      (id k : String) (r : Served InferResponse) (e : E)
      → str_eq id k ≡ false
      → copies (settle format codec webhook platform metrics id r e).1 k ≡ copies e k
  unfolding settle succeeded_update failed_update
  settle-other id k (panic m) e is = refl
  settle-other id k (failure x) e is =
      let u = failed_update id (error_text x) in
      let e₁ = (webhook.update_task_info u e).1 in
      ground (arith, is, copies-others u k e is, copies-failure_inc k e₁)
  settle-other id k (served response) e is =
      let u = succeeded_update format id response in
      let e₁ = (record_predict_time format codec webhook platform metrics u.running_time e).1 in
      ground (arith, is, entry-record_time u.running_time k e, copies-others u k e₁ is)

  -- The write of `running`.
  started : String → E → E
  started id e = (webhook.update_task_info (record (update_of id) { status = "running" }) e).1

  -- What the webhook service answers to it.
  start_answer : String → E → Result (Unit {0})
  start_answer id e = (webhook.update_task_info (record (update_of id) { status = "running" }) e).0

  started-own :
      (id : String) (e : E)
      → start_answer id e ≡ ok tt
      → copies (started id e) id ≡ with_status "running" (copies e id)
  unfolding started start_answer
  started-own id e good = ground (
    arith,
    eq_iff "running" "",
    copies-update (record (update_of id) { status = "running" }) e good,
  )

  run_payload-own :
      (payload : PayloadRunPrediction) (e : E)
      → let (res, e') = run_payload format codec webhook platform metrics payload e in
        Leaves res (copies e payload.id) (copies e' payload.id)
  unfolding run_payload started start_answer
  run_payload-own payload e =
      let e₁ = started payload.id e in
      let (r, e₂) = platform.predict payload.request payload.api_version e₁ in
      ground (
        arith,
        λ (good : start_answer payload.id e ≡ ok tt).
            settle-own payload.id r e₂ (copies e payload.id) (
              copies-predict payload.request payload.api_version payload.id e₁
              ∙ started-own payload.id e good),
      )

  run_payload-other :
      (payload : PayloadRunPrediction) (k : String) (e : E)
      → str_eq payload.id k ≡ false
      → copies (run_payload format codec webhook platform metrics payload e).1 k ≡ copies e k
  unfolding run_payload started
  run_payload-other payload k e is =
      let e₁ = started payload.id e in
      let (r, e₂) = platform.predict payload.request payload.api_version e₁ in
      ground (
        arith,
        is,
        copies-others (record (update_of payload.id) { status = "running" }) k e is,
        copies-predict payload.request payload.api_version k e₁,
        settle-other payload.id k r e₂ is,
      )

  runs_payload :
      (bytes : String) (payload : PayloadRunPrediction)
      → codec.unmarshal bytes ≡ ok payload
      → process_task_run_prediction format codec webhook platform metrics bytes
        ≡ run_payload format codec webhook platform metrics payload
  unfolding process_task_run_prediction
  runs_payload bytes payload decoded = rw (decoded, process_task_run_prediction) refl

  -- If the webhook service is a store in which an update that is acknowledged changes its record
  -- as it says, and no update, acknowledged or not, changes another record; if neither the
  -- platform nor the metrics change a record; and if the payload can be read: then a run of
  -- `ProcessTaskRunPrediction` changes no record but the one that the payload names. When the
  -- task is reported as done, this record is as before but `succeeded` or `failed`; when the
  -- platform panicked, it is as before but `running`. After an error nothing is said of it. The
  -- run never asks asynq to skip the retry.
  pub process-Leaves :
      (bytes : String) (payload : PayloadRunPrediction) (e : E)
      → codec.unmarshal bytes ≡ ok payload
      → let (res, e') = process_task_run_prediction format codec webhook platform metrics bytes e in
        Leaves res (copies e payload.id) (copies e' payload.id)
        × ((k : String) → payload.id ≢ k → copies e' k ≡ copies e k)
  process-Leaves bytes payload e decoded =
      subst
        (λ (f : E → TaskResult × E).
          Leaves (f e).0 (copies e payload.id) (copies (f e).1 payload.id)
          × ((k : String) → payload.id ≢ k → copies (f e).1 k ≡ copies e k))
        (sym (runs_payload bytes payload decoded))
        (
          run_payload-own payload e,
          λ k other. run_payload-other payload k e (grind (arith, eq_iff payload.id k, other)),
        )
