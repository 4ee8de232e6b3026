-- ===== src/Platform/KServe/Bodies.antt =====
-- Every call of the KServe platform closes the responses that it opens, within bounded time.
use serving_agent.Common.{
  of_seconds, List, ◌≤◌, String, ◌≡◌, Bool-cases, inl, inr, arith, str_eq, Result, ok, err, some,
  none, pos,
}
use serving_agent.Http.{HttpResponse, Http}
use serving_agent.Http.Record.{
  HttpCall, HttpWorld, fresh, recorded_http, num_sent, num_opened, num_closed, time_slept,
}
use serving_agent.Platform.{
  Served, served, failure, panic, InferRequest, DocsRequest, Format, JsonCodec, json_of_map,
}
use serving_agent.Platform.KServe.{
  KServe, and_read, read_map, read_value, send_inputs, predict_v1, predict, docs,
}
use serving_agent.Platform.KServe.Retries.{Tally, send_request-Tally}

-- A call that is over: at most five requests, at most twenty seconds of waiting between them, and no
-- response left open.
pub record Tidy (log : List HttpCall) : Type 0 where
  pub few : num_sent log ≤ 5
  pub short : time_slept log ≤ 20
  pub all_closed : num_opened log ≡ num_closed log

module _ {E : Type 0} (format : Format) (codec : JsonCodec) (http : Http E) (service : KServe) where
  and_read-Tidy :
      {A : Type 0} (read : HttpResponse → Served A) (r : Served HttpResponse) (w : HttpWorld E)
      → Tally r w.log
      → Tidy (and_read format codec (recorded_http http) service read r w).1.log
  unfolding and_read
  and_read-Tidy read (panic m) w h = omega (arith, h.left_open)
  and_read-Tidy read (failure e) w h = omega (arith, h.left_open)
  and_read-Tidy read (served res) w h = omega (arith, h.left_open)

  send_inputs-Tidy :
      (req : InferRequest) (bytes : Result String) (e : E)
      → Tidy (send_inputs format codec (recorded_http http) service req bytes (fresh e)).1.log
  unfolding send_inputs
  send_inputs-Tidy req (err x) e = omega arith
  send_inputs-Tidy req (ok bytes) e =
      and_read-Tidy (read_map format codec (recorded_http http) service) _ _ (
        send_request-Tally format codec http service req.model_name "POST" _ (some bytes)
          (of_seconds service.timeout) e)

  -- A prediction on KServe sends at most five requests, waits at most twenty seconds between
  -- them, and closes as many responses as it opened.
  pub predict-Tidy :
      (req : InferRequest) (version : String) (e : E)
      → Tidy (predict format codec (recorded_http http) service req version (fresh e)).1.log
  unfolding predict predict_v1
  predict-Tidy req version e = elim (Bool-cases (str_eq version "v1")) [
    | inl known ↦ rw known (send_inputs-Tidy req (codec.write (json_of_map req.inputs)) e)
    | inr unknown ↦ rw unknown (omega arith)
  ]

  -- Reading the documentation of a KServe model sends at most five requests, waits at most twenty
  -- seconds between them, and closes as many responses as it opened.
  pub docs-Tidy :
      (req : DocsRequest) (e : E)
      → Tidy (docs format codec (recorded_http http) service req (fresh e)).1.log
  unfolding docs
  docs-Tidy req e = and_read-Tidy (read_value format codec (recorded_http http) service) _ _ (
      send_request-Tally format codec http service req.model_name "GET" _ none (of_seconds (pos 10))
        e)
