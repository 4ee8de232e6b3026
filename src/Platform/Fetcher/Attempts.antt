-- ===== src/Platform/Fetcher/Attempts.antt =====
-- What the fetcher sends.
use serving_agent.Common.{
  Option, String, ℕ, zero, suc, ◌+◌, ◌≤◌, ◌≡◌, refl, sym, ap, ◌∙◌, List, [], ◌∷◌, ℤ, arith, Exec,
  Result, ok, err,
}
use serving_agent.Http.{HttpRequest, HttpResponse, Http}
use serving_agent.Http.Record.{HttpCall, sent, HttpWorld, recorded_http}
use serving_agent.Platform.Fetcher.{
  Retry, send_once, IsRetried, succeeds, gives_up, again, Retries, send_request,
}

-- The same request, less its body.
abbrev pub IsSent : HttpRequest → HttpRequest → Type 0
IsSent r req =
    (r.method ≡ req.method) × (r.url ≡ req.url) × (r.host ≡ req.host) × (r.headers ≡ req.headers)

-- So many attempts of one request, and all of them failed.
abbrev pub Failures : HttpRequest → ℕ → List HttpCall → List HttpCall → Type 0
Failures req zero old log = log ≡ old
Failures req (suc n) old [] = ⊥
Failures req (suc n) old (sent r (err _) ∷ log) = IsSent r req × Failures req n old log
Failures req (suc n) old (_ ∷ log) = ⊥

-- The attempts of a call: fewer than the limit failed before the response that is returned, or all
-- of them failed.
abbrev pub IsTried : HttpRequest → ℕ → List HttpCall → Result HttpResponse → List HttpCall → Type 0
IsTried req limit old (ok res) (sent r (ok last) ∷ log) =
    IsSent r req × (last ≡ res) × (n : ℕ) × (n + 1 ≤ limit) × Failures req n old log
IsTried req limit old (ok res) log = ⊥
IsTried req limit old (err x) log = Failures req limit old log

-- Waiting sends nothing, and neither does looking at what is left of a body.
abbrev pub IsSilent : {E : Type 0} → (HttpWorld E → HttpWorld E) → Type 0
IsSilent {E} pause = (w : HttpWorld E) → (pause w).log ≡ w.log

abbrev pub ReadsQuietly : {E : Type 0} → (HttpRequest → Exec (HttpWorld E) (Option String)) → Type 0
ReadsQuietly {E} remaining = (req : HttpRequest) → IsSilent (λ w. (remaining req w).1)

module _ {E : Type 0} (http : Http E) (retry : Retry (HttpWorld E))
    (remaining : HttpRequest → Exec (HttpWorld E) (Option String)) (reads : ReadsQuietly remaining)
    (timeout : ℤ) (req : HttpRequest) where
  abbrev tried : Exec (HttpWorld E) (Result HttpResponse)
  tried = send_once (recorded_http http) retry remaining req timeout

  attempt-log :
      (a : Result HttpResponse) (w w' : HttpWorld E)
      → tried w ≡ (a, w')
      → w'.log ≡ sent (record req { body = (remaining req w).0 }) a ∷ w.log
  unfolding send_once
  attempt-log a w w' h =
      let r = record req { body = (remaining req w).0 } in
      sym (ap (λ (p : Result HttpResponse × HttpWorld E). p.1.log) h)
      ∙ rw (reads req w) (
          ap (λ (b : Result HttpResponse). sent r b ∷ w.log)
            (ap (λ (p : Result HttpResponse × HttpWorld E). p.0) h))

  retried-IsTried :
      (pause : HttpWorld E → HttpWorld E) (old : List HttpCall) (limit k n : ℕ) {w : HttpWorld E}
      {end : Result HttpResponse × HttpWorld E}
      → IsSilent pause
      → k + n ≡ limit
      → IsRetried pause tried n w end
      → Failures req k old w.log
      → IsTried req limit old end.0 end.1.log
  retried-IsTried pause old limit k _ silent total (succeeds {w = w} {w'} {res} h) failed =
      rw (attempt-log (ok res) w w' h)
        ((refl, refl, refl, refl), refl, k, omega (arith, total), failed)
  retried-IsTried pause old limit k _ silent total (gives_up {w} {w'} {x} h) failed =
      let all : suc k ≡ limit = omega (arith, total) in
      rw (← all, attempt-log (err x) w w' h) ((refl, refl, refl, refl), failed)
  retried-IsTried pause old limit k _ silent total (again {n} {w} {w'} {x} h rest) failed =
      retried-IsTried pause old limit (suc k) (suc n) silent (omega (arith, total)) rest
        (rw (silent w', attempt-log (err x) w w' h) ((refl, refl, refl, refl), failed))

module _ {E : Type 0} (http : Http E) (retry : Retry (HttpWorld E))
    (remaining : HttpRequest → Exec (HttpWorld E) (Option String)) where
  -- If retry-go tries a function until it returns no error and at most as often as it is told,
  -- and its waits send nothing, then a request with a positive number of tries is sent again only
  -- after it failed, and never more often than that: what is returned is the response of the last
  -- attempt, or an error after all of them failed. The body may be missing.
  pub fetcher-IsTried :
      (req : HttpRequest) (timeout : ℤ) (retries : ℕ) (w : HttpWorld E)
      → Retries retry
      → IsSilent retry.pause
      → ReadsQuietly remaining
      → let (a, w') =
          send_request (recorded_http http) retry remaining req timeout (suc retries) w in
        IsTried req (suc retries) w.log a w'.log
  unfolding send_request
  fetcher-IsTried req timeout retries w retried silent reads =
      retried-IsTried http retry remaining reads timeout req retry.pause w.log (suc retries) 0
        (suc retries) silent (omega arith)
        (retried retries 2 (send_once (recorded_http http) retry remaining req timeout) w) refl
