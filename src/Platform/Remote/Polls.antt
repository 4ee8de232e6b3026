-- ===== src/Platform/Remote/Polls.antt =====
-- The polling loop: how long it runs, what it leaves open, and how it waits.
use serving_agent.Common.{
  ℕ, zero, suc, ◌+◌, ◌≤◌, String, ◌≡◌, refl, List, ◌∷◌, ℤ, arith, Result, ok, err, ltb, Bool-cases,
  inl, inr,
}
use serving_agent.Http.{HttpRequest, HttpResponse, Http}
use serving_agent.Http.Record.{
  HttpCall, sent, HttpWorld, recorded_http, num_sent, num_opened, num_closed, time_slept,
}
use serving_agent.Platform.{
  GoMap, InferResponse, Served, served, failure, panic, Format, JsonCodec, parse_into,
}
use serving_agent.Platform.Remote.{
  Verdict, finished, wait, check_response, send_authorized, obey, read_status, read_body,
  after_poll, poll,
}

-- What a part of a call adds to the log: at most so many requests and so many seconds, each wait a
-- second long, and `left` responses still open.
pub record Adds (sends waits left : ℕ) (old new : List HttpCall) : Type 0 where
  pub few : num_sent new ≤ num_sent old + sends
  pub short : time_slept new ≤ time_slept old + waits
  pub open_bodies : num_opened new + num_closed old ≡ num_closed new + num_opened old + left

abbrev pub held : Served HttpResponse → ℕ
held (served _) = 1
held _ = 0

-- A judge of statuses up to 300 that never waits longer than a second.
abbrev pub IsBrisk : (ℕ → GoMap → Verdict) → Type 0
IsBrisk judge =
    (code : ℕ) (outputs : GoMap) (n : ℕ) → code ≤ 300 → judge code outputs ≡ wait n → n ≡ 1

module _ {E : Type 0} (format : Format) (codec : JsonCodec) (http : Http E) where
  check_response-Adds :
      (req : HttpRequest) (answer : Result HttpResponse) (e : E) (log : List HttpCall)
      → let (r, w) =
          check_response format codec
            (recorded_http http)
            answer
            (record { env = e; log = sent req answer ∷ log }) in
        Adds 1 0 (held r) log w.log
  unfolding check_response
  check_response-Adds req (err x) e log = omega arith
  check_response-Adds req (ok res) e log = elim (Bool-cases (ltb 300 res.status_code)) [
    | inl bad ↦ rw bad (omega arith)
    | inr good ↦ rw good (omega arith)
  ]

  abbrev run_send : HttpRequest → ℤ → HttpWorld E → Served HttpResponse × HttpWorld E
  run_send req timeout w = send_authorized format codec (recorded_http http) req timeout w

  pub send-Adds :
      (req : HttpRequest) (timeout : ℤ) (w : HttpWorld E)
      → Adds 1 0 (held (run_send req timeout w).0) w.log (run_send req timeout w).1.log
  unfolding send_authorized
  send-Adds req timeout w = elim (Bool-cases (http.builds req.method req.url)) [
    | inl valid ↦ rw valid (check_response-Adds req _ _ w.log)
    | inr invalid ↦ rw invalid (omega arith)
  ]

  check_response-le :
      (answer : Result HttpResponse) (w : HttpWorld E) (res : HttpResponse)
      → (check_response format codec (recorded_http http) answer w).0 ≡ served res
      → res.status_code ≤ 300
  unfolding check_response
  check_response-le (err x) w res h = cc
  check_response-le (ok last) w res h = ground arith

  -- What is handed on has a status of at most 300.
  pub send-le :
      (req : HttpRequest) (timeout : ℤ) (w : HttpWorld E) (res : HttpResponse)
      → (run_send req timeout w).0 ≡ served res
      → res.status_code ≤ 300
  unfolding send_authorized
  send-le req timeout w res = elim (Bool-cases (http.builds req.method req.url)) [
    | inl valid ↦ rw valid (check_response-le _ _ res)
    | inr invalid ↦ rw invalid (λ h. cc)
  ]

  module _ (judge : ℕ → GoMap → Verdict) (brisk : IsBrisk judge) (req : HttpRequest)
      (timeout : ℤ) where
    abbrev Rest : Type 0
    Rest = GoMap → HttpWorld E → Served InferResponse × HttpWorld E

    -- The later rounds send and wait `n` times at most.
    abbrev Later : ℕ → Rest → Type 0
    Later n again = (o : GoMap) (w : HttpWorld E) → Adds n n 0 w.log (again o w).1.log

    obey-Adds :
        (n : ℕ) (again : Rest) (outputs : GoMap) (v : Verdict) (w : HttpWorld E)
        → Later n again
        → ((s : ℕ) → v ≡ wait s → s ≡ 1)
        → Adds n
            (suc n)
            0
            w.log
            (obey format codec (recorded_http http) judge req timeout again outputs v w).1.log
    unfolding obey
    obey-Adds n again outputs (finished r) w later second = omega arith
    obey-Adds n again outputs (wait s) w later second =
        let (r, w₁) = (recorded_http http).sleep s w in
        let rest = later outputs w₁ in
        let one = second s refl in
        record {
          few = omega (arith, rest.few);
          short = omega (arith, rest.short, one);
          open_bodies = omega (arith, rest.open_bodies);
        }

    read_status-Adds :
        (n : ℕ) (again : Rest) (code : ℕ) (outputs : Result GoMap) (w : HttpWorld E)
        → Later n again
        → code ≤ 300
        → Adds n
            (suc n)
            0
            w.log
            (read_status format codec
              (recorded_http http)
              judge
              req
              timeout
              again
              code
              outputs
              w).1.log
    unfolding read_status
    read_status-Adds n again code (err x) w later small = omega arith
    read_status-Adds n again code (ok outputs) w later small =
        obey-Adds n again outputs (judge code outputs) w later (λ s. brisk code outputs s small)

    read_body-Adds :
        (n : ℕ) (again : Rest) (outputs : GoMap) (code : ℕ) (body : Result String) (w : HttpWorld E)
        → Later n again
        → code ≤ 300
        → Adds n
            (suc n)
            0
            w.log
            (read_body format codec
              (recorded_http http)
              judge
              req
              timeout
              again
              outputs
              code
              body
              w).1.log
    unfolding read_body
    read_body-Adds n again outputs code (err x) w later small = omega arith
    read_body-Adds n again outputs code (ok bytes) w later small =
        read_status-Adds n again code (parse_into codec outputs bytes) w later small

    after_poll-Adds :
        (n : ℕ) (again : Rest) (outputs : GoMap) (r : Served HttpResponse) (w : HttpWorld E)
        (old : List HttpCall)
        → Later n again
        → ((res : HttpResponse) → r ≡ served res → res.status_code ≤ 300)
        → Adds 1 0 (held r) old w.log
        → Adds
            (suc n)
            (suc n)
            0
            old
            (after_poll format codec (recorded_http http) judge req timeout again outputs r w).1.log
    unfolding after_poll
    after_poll-Adds n again outputs (panic m) w old later small h =
        omega (arith, h.few, h.short, h.open_bodies)
    after_poll-Adds n again outputs (failure e) w old later small h =
        omega (arith, h.few, h.short, h.open_bodies)
    after_poll-Adds n again outputs (served res) w old later small h =
        let rest =
          read_body-Adds n again outputs res.status_code res.body w later (small res refl) in
        record {
          few = omega (arith, h.few, rest.few);
          short = omega (arith, h.short, rest.short);
          open_bodies = omega (arith, h.open_bodies, rest.open_bodies);
        }

    -- The loop sends one request and waits one second at most in each round, and closes every body.
    pub poll-Adds :
        (rounds : ℕ) (outputs : GoMap) (w : HttpWorld E)
        → Adds rounds rounds 0 w.log
            (poll format codec (recorded_http http) judge req timeout rounds outputs w).1.log
    unfolding poll
    poll-Adds zero outputs w = omega arith
    poll-Adds (suc rounds) outputs w =
        let (r, w₁) = run_send req timeout w in
        after_poll-Adds rounds _ outputs r w₁ w.log (poll-Adds rounds) (send-le req timeout w)
          (send-Adds req timeout w)
