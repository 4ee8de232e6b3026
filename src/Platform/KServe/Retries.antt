-- ===== src/Platform/KServe/Retries.antt =====
-- The retry loop of `sendRequest`: how often it tries, how long it waits, and what it returns.
use serving_agent.Common.{
  ℕ, zero, suc, ◌+◌, ◌*◌, ◌≤◌, ◌<◌, String, ◌≡◌, ◌≢◌, refl, ap, ◌⊎◌, inl, inr, Option, List, [],
  ◌∷◌, ℤ, arith, Result, ok, err, true, false, Bool-cases, ltb, ◌==◌, ◌&&◌,
}
use serving_agent.Http.{HttpRequest, HttpResponse, Http}
use serving_agent.Http.Record.{
  HttpCall, sent, closed, slept, HttpWorld, fresh, recorded_http, num_sent, num_opened, num_closed,
  time_slept,
}
use serving_agent.Platform.{
  Served, served, failure, Format, JsonCodec, send_request_error, invalid_input_error,
}
use serving_agent.Platform.KServe.{
  KServe, is_transient, on_answer, attempt, send_request, request_to,
}

-- Rounds of the loop that were all retried, newest first: the request failed, or its response had
-- a transient status and was closed; round n then waited 2 n seconds.
abbrev pub Retried : List HttpCall → Type 0
Retried [] = Unit
Retried (slept n ∷ sent _ (err _) ∷ log) = (n ≡ (num_sent log + 1) * 2) × Retried log
Retried (slept n ∷ closed _ ∷ sent _ (ok res) ∷ log) =
    (n ≡ (num_sent log + 1) * 2) × (is_transient res ≡ true) × Retried log
Retried _ = ⊥

-- The last round and the result: a response with status 200 is returned open; a request that fails
-- the fifth time is an error in sending; any other response is closed, and is an invalid input if it
-- is not transient or is the fifth.
abbrev pub Concluded : Served HttpResponse → List HttpCall → Type 0
Concluded (served res) (sent _ (ok last) ∷ log) =
    (res ≡ last) × (res.status_code ≡ 200) × (num_sent log ≤ 4) × Retried log
Concluded (failure f) (sent _ (err _) ∷ log) =
    (f.status_code ≡ send_request_error) × (num_sent log ≡ 4) × Retried log
Concluded (failure f) (closed _ ∷ sent _ (ok last) ∷ log) =
    (f.status_code ≡ invalid_input_error)
    × (last.status_code ≢ 200)
    × (num_sent log ≤ 4)
    × ((is_transient last ≡ false) ⊎ (num_sent log ≡ 4))
    × Retried log
Concluded _ _ = ⊥

-- The responses that a result hands on to its caller.
abbrev pub num_held : Served HttpResponse → ℕ
num_held (served _) = 1
num_held _ = 0

Retried-waits :
    (log : List HttpCall) → Retried log → time_slept log ≡ num_sent log * (num_sent log + 1)
Retried-waits [] h = refl
Retried-waits (slept n ∷ sent _ (err _) ∷ log) h = grind (arith, Retried-waits log h.1)
Retried-waits (slept n ∷ closed _ ∷ sent _ (ok res) ∷ log) h = grind (arith, Retried-waits log h.2)
Retried-waits _ h = absurd h

Retried-bodies : (log : List HttpCall) → Retried log → num_opened log ≡ num_closed log
Retried-bodies [] h = refl
Retried-bodies (slept n ∷ sent _ (err _) ∷ log) h = Retried-bodies log h.1
Retried-bodies (slept n ∷ closed _ ∷ sent _ (ok res) ∷ log) h = ap suc (Retried-bodies log h.2)
Retried-bodies _ h = absurd h

-- What follows of the numbers of calls.
pub record Tally (result : Served HttpResponse) (log : List HttpCall) : Type 0 where
  pub few : num_sent log ≤ 5
  pub short : time_slept log ≤ 20
  pub left_open : num_opened log ≡ num_closed log + num_held result

at_most_twenty : (n t : ℕ) → n ≤ 4 → t ≡ n * (n + 1) → t ≤ 20
at_most_twenty n t h e = grind arith

pub Concluded-Tally :
    (result : Served HttpResponse) (log : List HttpCall) → Concluded result log → Tally result log
Concluded-Tally (served res) (sent _ (ok last) ∷ log) h = record {
  few = omega arith;
  short = at_most_twenty (num_sent log) _ (omega arith) (Retried-waits log h.3);
  left_open = omega (arith, Retried-bodies log h.3);
}
Concluded-Tally (failure f) (sent _ (err _) ∷ log) h = record {
  few = omega arith;
  short = at_most_twenty (num_sent log) _ (omega arith) (Retried-waits log h.2);
  left_open = omega (arith, Retried-bodies log h.2);
}
Concluded-Tally (failure f) (closed _ ∷ sent _ (ok last) ∷ log) h = record {
  few = omega arith;
  short = at_most_twenty (num_sent log) _ (omega arith) (Retried-waits log h.4);
  left_open = omega (arith, Retried-bodies log h.4);
}
Concluded-Tally _ _ h = absurd h

module _ {E : Type 0} (format : Format) (codec : JsonCodec) (http : Http E) (service : KServe) where
  module _ (model_name : String) (req : HttpRequest) (timeout : ℤ) where
    abbrev run : ℕ → ℕ → HttpWorld E → Served HttpResponse × HttpWorld E
    run rounds i w =
        attempt format codec (recorded_http http) service model_name req timeout rounds i w

    -- The rest of a round, from the answer.
    abbrev react :
        ℕ → ℕ → Result HttpResponse → E → List HttpCall → Served HttpResponse × HttpWorld E
    react rounds i answer e log =
        on_answer format codec (recorded_http http) service model_name req timeout i
          (run rounds (i + 1)) answer (record { env = e; log = sent req answer ∷ log })

    react-Concluded :
        (rounds i : ℕ) (answer : Result HttpResponse) (e : E) (log : List HttpCall)
        → Retried log
        → num_sent log ≡ i
        → i ≤ 4
        → ((w : HttpWorld E)
            → i < 4
            → Retried w.log
            → num_sent w.log ≡ i + 1
            → Concluded (run rounds (i + 1) w).0 (run rounds (i + 1) w).1.log)
        → Concluded (react rounds i answer e log).0 (react rounds i answer e log).1.log
    unfolding on_answer
    react-Concluded rounds i (err x) e log tried n most again = elim (Bool-cases (ltb i 4)) [
      | inl more ↦ rw more (again _ (ground arith) (omega arith, tried) (omega arith))
      | inr last ↦ rw last (refl, ground arith, tried)
    ]
    react-Concluded rounds i (ok res) e log tried n most again =
        elim (Bool-cases (res.status_code == 200)) [
          | inl good ↦ rw good (refl, ground arith, omega arith, tried)
          | inr bad ↦ elim (Bool-cases (is_transient res && ltb i 4)) [
            | inl more ↦
                rw (bad, more)
                  (again _ (ground arith) (omega arith, ground arith, tried) (omega arith))
            | inr last ↦ rw (bad, last) (refl, ground arith, omega arith, ground arith, tried)
          ]
        ]

    attempt-Concluded :
        (rounds i : ℕ) (w : HttpWorld E)
        → http.builds req.method req.url ≡ true
        → rounds + i ≡ 5
        → i ≤ 4
        → Retried w.log
        → num_sent w.log ≡ i
        → Concluded (run rounds i w).0 (run rounds i w).1.log
    unfolding attempt
    attempt-Concluded zero i w valid h most tried n = absurd (omega arith)
    attempt-Concluded (suc rounds) i w valid h most tried n = rw valid (
        react-Concluded rounds i _ _ w.log tried n most
          λ v less t k. attempt-Concluded rounds (i + 1) v valid (omega arith) (omega arith) t k)

  abbrev pub run_send :
      String → String → String → Option String → ℤ → E → Served HttpResponse × HttpWorld E
  run_send model_name method url body timeout e =
      send_request format codec (recorded_http http) service model_name method url body timeout
        (fresh e)

  -- If the request can be built, it is sent at most five times, each time but the last failed or
  -- got a transient status, and round n then waited 2 n seconds; a result that is returned is the
  -- last response and has status 200; a failure is an error in sending after five failed
  -- requests, or an invalid input after a closed response that is not transient or is the fifth.
  pub send_request-Concluded :
      (model_name method url : String) (body : Option String) (timeout : ℤ) (e : E)
      → http.builds method url ≡ true
      → Concluded
          (run_send model_name method url body timeout e).0
          (run_send model_name method url body timeout e).1.log
  unfolding send_request
  send_request-Concluded model_name method url body timeout e valid =
      attempt-Concluded model_name (request_to service model_name method url body) timeout 5 0
        (fresh e) valid refl (omega arith) tt refl

  pub send_request-Tally :
      (model_name method url : String) (body : Option String) (timeout : ℤ) (e : E)
      → Tally
          (run_send model_name method url body timeout e).0
          (run_send model_name method url body timeout e).1.log
  unfolding send_request attempt on_answer
  send_request-Tally model_name method url body timeout e =
      elim (Bool-cases (http.builds method url)) [
        | inl valid ↦
            Concluded-Tally _ _ (send_request-Concluded model_name method url body timeout e valid)
        | inr invalid ↦
            rw invalid (record { few = omega arith; short = omega arith; left_open = refl })
      ]
