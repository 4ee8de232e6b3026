-- ===== src/Platform/Replicate/Requests.antt =====
-- How many requests a prediction on Replicate sends, how long it waits, and that it closes them all.
use serving_agent.Common.{
  of_seconds, ℕ, suc, ◌≤◌, String, ◌≡◌, Bool-cases, inl, inr, arith, ltb, str_eq, Result, ok, err,
  Option, none, some, pos_part, List, true,
}
use serving_agent.Http.{HttpResponse, Http}
use serving_agent.Http.Record.{HttpCall, HttpWorld, recorded_http}
use serving_agent.Platform.{
  Json, obj, GoMap, nil_map, Served, served, failure, panic, InferRequest, Format, JsonCodec,
  parse_into,
}
use serving_agent.Platform.Remote.{wait}
use serving_agent.Platform.Remote.Polls.{Adds, held, IsBrisk, send-Adds, poll-Adds}
use serving_agent.Platform.Replicate.{
  Replicate, succeeded_with, judge_status, judge, start_polling, read_urls, read_prediction,
  read_created, created, send_prediction, predict,
}

succeeded_with-second :
    (format : Format) (output : Json) (metrics : Option Json) (n : ℕ)
    → succeeded_with format output metrics ≡ wait n
    → n ≡ 1
unfolding succeeded_with
succeeded_with-second format output (some (obj m)) n = λ h. cc
succeeded_with-second format output (some _) n = λ h. cc
succeeded_with-second format output none n = λ h. cc

judge_status-second :
    (format : Format) (outputs : GoMap) (v : Option Json) (n : ℕ)
    → judge_status format outputs v ≡ wait n
    → n ≡ 1
unfolding judge_status
judge_status-second format outputs none n = λ h. cc
judge_status-second format outputs (some v) n =
    elim (Bool-cases (str_eq (format.sprint v) "succeeded")) [
      | inl done ↦ rw done (succeeded_with-second format _ _ n)
      | inr more ↦ rw more (elim (Bool-cases (str_eq (format.sprint v) "failed")) [
        | inl failed ↦ rw failed (λ h. cc)
        | inr going ↦ rw going (λ h. cc)
      ])
    ]

not_throttled : (code : ℕ) → code ≤ 300 → ltb code 400 ≡ true
not_throttled code small = ground arith

-- A status of at most 300 is never the throttled one, so every wait is a second.
judge-IsBrisk : (format : Format) → IsBrisk (judge format)
unfolding judge
judge-IsBrisk format code outputs n small =
    rw (not_throttled code small) (judge_status-second format outputs _ n)

module _ {E : Type 0} (format : Format) (codec : JsonCodec) (http : Http E)
    (service : Replicate) where
  -- The most questions, and the most seconds.
  abbrev limit : ℕ
  limit = pos_part service.timeout

  start_polling-Adds :
      (outputs : GoMap) (id : Option Json) (w : HttpWorld E)
      → Adds limit limit 0 w.log
          (start_polling format codec (recorded_http http) service outputs id w).1.log
  unfolding start_polling
  start_polling-Adds outputs none w = omega arith
  start_polling-Adds outputs (some id) w =
      poll-Adds format codec http (judge format) (judge-IsBrisk format) _
        (of_seconds service.timeout) limit outputs w

  read_urls-Adds :
      (outputs : GoMap) (urls : Option Json) (w : HttpWorld E)
      → Adds limit limit 0 w.log
          (read_urls format codec (recorded_http http) service outputs urls w).1.log
  unfolding read_urls
  read_urls-Adds outputs none w = omega arith
  read_urls-Adds outputs (some (obj urls)) w = start_polling-Adds outputs _ w
  read_urls-Adds outputs (some _) w = omega arith

  read_prediction-Adds :
      (code : ℕ) (outputs : Result GoMap) (w : HttpWorld E)
      → Adds limit limit 0 w.log
          (read_prediction format codec (recorded_http http) service code outputs w).1.log
  unfolding read_prediction
  read_prediction-Adds code (err x) w = omega arith
  read_prediction-Adds code (ok outputs) w = elim (Bool-cases (ltb code 300)) [
    | inl fine ↦ rw fine (read_urls-Adds outputs _ w)
    | inr bad ↦ rw bad (omega arith)
  ]

  read_created-Adds :
      (code : ℕ) (body : Result String) (w : HttpWorld E)
      → Adds limit limit 0 w.log
          (read_created format codec (recorded_http http) service code body w).1.log
  unfolding read_created
  read_created-Adds code (err x) w = omega arith
  read_created-Adds code (ok bytes) w = read_prediction-Adds code (parse_into codec nil_map bytes) w

  created-Adds :
      (r : Served HttpResponse) (w : HttpWorld E) (old : List HttpCall)
      → Adds 1 0 (held r) old w.log
      → Adds (suc limit) limit 0 old (created format codec (recorded_http http) service r w).1.log
  unfolding created
  created-Adds (panic m) w old h = omega (arith, h.few, h.short, h.open_bodies)
  created-Adds (failure e) w old h = omega (arith, h.few, h.short, h.open_bodies)
  created-Adds (served res) w old h =
      let rest = read_created-Adds res.status_code res.body w in
      record {
        few = omega (arith, h.few, rest.few);
        short = omega (arith, h.short, rest.short);
        open_bodies = omega (arith, h.open_bodies, rest.open_bodies);
      }

  send_prediction-Adds :
      (bytes : Result String) (w : HttpWorld E)
      → Adds
          (suc limit)
          limit
          0
          w.log
          (send_prediction format codec (recorded_http http) service bytes w).1.log
  unfolding send_prediction
  send_prediction-Adds (err x) w = omega arith
  send_prediction-Adds (ok bytes) w =
      created-Adds _ _ w.log (send-Adds format codec http _ (of_seconds service.timeout) w)

  -- A prediction on Replicate sends at most one request more than the configured timeout has
  -- seconds (none counted for a negative timeout), sleeps at most as many seconds as the timeout
  -- has, and closes as many responses as it opened.
  pub replicate-predict-Adds :
      (req : InferRequest) (version : String) (w : HttpWorld E)
      → Adds
          (suc limit)
          limit
          0
          w.log
          (predict format codec (recorded_http http) service req version w).1.log
  unfolding predict
  replicate-predict-Adds req version w = send_prediction-Adds _ w
