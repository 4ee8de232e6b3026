-- ===== src/Platform/RunPod/Requests.antt =====
-- How many requests a prediction on RunPod sends, how long it waits, and that it closes them all.
use serving_agent.Common.{
  of_seconds, ℕ, suc, String, ◌≡◌, Bool-cases, inl, inr, arith, ltb, str_eq, Result, ok, err,
  Option, none, some, pos_part, List,
}
use serving_agent.Http.{HttpResponse, Http}
use serving_agent.Http.Record.{HttpCall, HttpWorld, recorded_http}
use serving_agent.Platform.{
  Json, num, GoMap, nil_map, Served, served, failure, panic, InferRequest, Format, JsonCodec,
  parse_into,
}
use serving_agent.Platform.Remote.{wait}
use serving_agent.Platform.Remote.Polls.{Adds, held, IsBrisk, send-Adds, poll-Adds}
use serving_agent.Platform.RunPod.{
  RunPod, done_with, judge_status, judge, start_polling, read_job, read_created, created, send_job,
  predict,
}

done_with-second :
    (format : Format) (output : Json) (time : Option Json) (n : ℕ)
    → done_with format output time ≡ wait n
    → n ≡ 1
unfolding done_with
done_with-second format output (some (num t)) n = λ h. cc
done_with-second format output (some _) n = λ h. cc
done_with-second format output none n = λ h. cc

judge_status-second :
    (format : Format) (outputs : GoMap) (v : Option Json) (n : ℕ)
    → judge_status format outputs v ≡ wait n
    → n ≡ 1
unfolding judge_status
judge_status-second format outputs none n = λ h. cc
judge_status-second format outputs (some v) n =
    elim (Bool-cases (str_eq (format.sprint v) "COMPLETED")) [
      | inl done ↦ rw done (done_with-second format _ _ n)
      | inr more ↦ rw more (elim (Bool-cases (str_eq (format.sprint v) "FAILED")) [
        | inl failed ↦ rw failed (λ h. cc)
        | inr going ↦ rw going (λ h. cc)
      ])
    ]

-- Between two questions there is one second.
judge-IsBrisk : (format : Format) → IsBrisk (judge format)
unfolding judge
judge-IsBrisk format code outputs n small = elim (Bool-cases (ltb code 400)) [
  | inl fine ↦ rw fine (judge_status-second format outputs _ n)
  | inr bad ↦ rw bad (λ h. cc)
]

module _ {E : Type 0} (format : Format) (codec : JsonCodec) (http : Http E) (service : RunPod) where
  -- The most questions, and the most seconds.
  abbrev limit : ℕ
  limit = pos_part service.timeout

  start_polling-Adds :
      (outputs : GoMap) (id : Option Json) (w : HttpWorld E)
      → Adds limit limit 0 w.log
          (start_polling format codec (recorded_http http) service outputs id w).1.log
  unfolding start_polling
  start_polling-Adds outputs none w = omega arith
  start_polling-Adds outputs (some id) w =
      poll-Adds format codec http (judge format) (judge-IsBrisk format) _
        (of_seconds service.timeout) limit outputs w

  read_job-Adds :
      (code : ℕ) (outputs : Result GoMap) (w : HttpWorld E)
      → Adds limit limit 0 w.log
          (read_job format codec (recorded_http http) service code outputs w).1.log
  unfolding read_job
  read_job-Adds code (err x) w = omega arith
  read_job-Adds code (ok outputs) w = elim (Bool-cases (ltb code 300)) [
    | inl fine ↦ rw fine (start_polling-Adds outputs _ w)
    | inr bad ↦ rw bad (omega arith)
  ]

  read_created-Adds :
      (code : ℕ) (body : Result String) (w : HttpWorld E)
      → Adds limit limit 0 w.log
          (read_created format codec (recorded_http http) service code body w).1.log
  unfolding read_created
  read_created-Adds code (err x) w = omega arith
  read_created-Adds code (ok bytes) w = read_job-Adds code (parse_into codec nil_map bytes) w

  created-Adds :
      (r : Served HttpResponse) (w : HttpWorld E) (old : List HttpCall)
      → Adds 1 0 (held r) old w.log
      → Adds (suc limit) limit 0 old (created format codec (recorded_http http) service r w).1.log
  unfolding created
  created-Adds (panic m) w old h = omega (arith, h.few, h.short, h.open_bodies)
  created-Adds (failure e) w old h = omega (arith, h.few, h.short, h.open_bodies)
  created-Adds (served res) w old h =
      let rest = read_created-Adds res.status_code res.body w in
      record {
        few = omega (arith, h.few, rest.few);
        short = omega (arith, h.short, rest.short);
        open_bodies = omega (arith, h.open_bodies, rest.open_bodies);
      }

  send_job-Adds :
      (bytes : Result String) (w : HttpWorld E)
      → Adds
          (suc limit)
          limit
          0
          w.log
          (send_job format codec (recorded_http http) service bytes w).1.log
  unfolding send_job
  send_job-Adds (err x) w = omega arith
  send_job-Adds (ok bytes) w =
      created-Adds _ _ w.log (send-Adds format codec http _ (of_seconds service.timeout) w)

  -- A prediction on RunPod sends at most one request more than the configured timeout has seconds
  -- (none counted for a negative timeout), sleeps at most as many seconds as the timeout has, and
  -- closes as many responses as it opened.
  pub runpod-predict-Adds :
      (req : InferRequest) (version : String) (w : HttpWorld E)
      → Adds
          (suc limit)
          limit
          0
          w.log
          (predict format codec (recorded_http http) service req version w).1.log
  unfolding predict
  runpod-predict-Adds req version w = send_job-Adds _ w
