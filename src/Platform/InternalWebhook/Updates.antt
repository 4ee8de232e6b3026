-- ===== src/Platform/InternalWebhook/Updates.antt =====
-- When an update of a task record counts as done, over any network.
use serving_agent.Common.{
  ℕ, String, ◌≡◌, ◌==◌, ◌↔◌, inl, inr, refl, ap, sym, subst, List, [], ◌∷◌, length, arith, Result,
  ok, err, Bool-cases, Result-cases, some,
}
use serving_agent.Http.{HttpRequest, HttpResponse, Http, Fetcher}
use serving_agent.Http.Record.{HttpCall, sent, closed, HttpWorld, recorded_http, recorded_fetcher}
use serving_agent.Platform.{UpdateRequest, Format, JsonCodec}
use serving_agent.Platform.InternalWebhook.{
  InternalWebhook, TaskCodec, with_body, answered, fetch, json_of_update, update_task_info,
  internal_webhook,
}
use serving_agent.Platform.InternalWebhook.Requests.{client}

abbrev pub put : InternalWebhook → String → HttpRequest
put webhook bytes = record {
  method = "PUT";
  url = webhook.url;
  body = some bytes;
  host = "";
  headers = ("Content-Type", "application/json") ∷ ("apikey", webhook.config.webhook_apikey) ∷ [];
}

-- From the first log to the second there was one exchange, which succeeded: a PUT request with this
-- body was answered with status 200, and the answer was closed.
abbrev pub IsPut : InternalWebhook → String → List HttpCall → List HttpCall → Type 0
IsPut webhook bytes log log' =
    (res : HttpResponse) × (res.status_code ≡ 200)
    × (log' ≡ closed res ∷ sent (put webhook bytes) (ok res) ∷ log)

-- The same, for the JSON of an update.
abbrev pub Confirmed :
    JsonCodec → InternalWebhook → UpdateRequest → List HttpCall → List HttpCall → Type 0
Confirmed codec webhook u log log' =
    (bytes : String) × (codec.write (json_of_update u) ≡ ok bytes) × IsPut webhook bytes log log'

not-IsPut :
    (webhook : InternalWebhook) (bytes : String) (log : List HttpCall)
    → IsPut webhook bytes log log
    → ⊥
not-IsPut webhook bytes log (res, _, same) = omega (arith, ap length same)

-- The status of the response that was closed last, or 0.
abbrev closed_status : List HttpCall → ℕ
closed_status (closed res ∷ log) = res.status_code
closed_status _ = 0

abbrev text_of : Result String → String
text_of (ok s) = s
text_of (err _) = ""

module _ {E : Type 0} (format : Format) (codec : JsonCodec) (tasks : TaskCodec) (http : Http E)
    (fetcher : Fetcher E) (webhook : InternalWebhook) where
  abbrev IsConfirmed : String → List HttpCall → Result (Unit {0}) × HttpWorld E → Type 0
  IsConfirmed bytes log (r, w) = (r ≡ ok tt) ↔ IsPut webhook bytes log w.log

  answered-IsConfirmed :
      (bytes : String) (res : Result HttpResponse) (e : E) (log : List HttpCall)
      → IsConfirmed bytes log (
          answered format codec tasks
            (recorded_http http)
            (recorded_fetcher fetcher)
            webhook
            "failed to update task info"
            (λ _. ok tt)
            res
            (record { env = e; log = sent (put webhook bytes) res ∷ log }))
  unfolding answered
  answered-IsConfirmed bytes (err x) e log = ((λ p. cc), (λ p. cc))
  answered-IsConfirmed bytes (ok res) e log = elim (Bool-cases (res.status_code == 200)) [
    | inl good ↦ rw good ((λ p. (res, ground (arith, good), refl)), (λ p. refl))
    | inr bad ↦ rw bad (
      (λ p. cc),
      (λ p.
          let (res', accepted, same) = p in
          let own : res.status_code ≡ res'.status_code = ap closed_status same in
          absurd (ground (arith, bad, own, accepted))),
    )
  ]

  abbrev fetch_put : String → HttpWorld E → Result (Unit {0}) × HttpWorld E
  fetch_put bytes w =
      fetch format codec tasks (recorded_http http) (recorded_fetcher fetcher) webhook
        (put webhook bytes) "failed to update task info" (λ _. ok tt) w

  fetch-IsConfirmed :
      (bytes : String) (w : HttpWorld E) → IsConfirmed bytes w.log (fetch_put bytes w)
  unfolding fetch
  fetch-IsConfirmed bytes w = elim (Bool-cases (http.builds "PUT" webhook.url)) [
    | inl valid ↦ rw valid (answered-IsConfirmed bytes _ _ w.log)
    | inr invalid ↦ rw invalid ((λ p. cc), (λ p. absurd (not-IsPut webhook bytes w.log p)))
  ]

  -- At any time and over any network, an update of a task record returns no error if and only if
  -- it can be written as JSON and the one exchange of the call was this: a PUT request to the
  -- service's address, with this JSON and the API key, was answered with status 200, and the
  -- answer was closed.
  pub update_task_info-Confirmed :
      (u : UpdateRequest) (w : HttpWorld E)
      → let (r, w') = (client format codec tasks http fetcher webhook).update_task_info u w in
        (r ≡ ok tt) ↔ Confirmed codec webhook u w.log w'.log
  unfolding internal_webhook update_task_info with_body
  update_task_info-Confirmed u w = elim (Result-cases (codec.write (json_of_update u))) [
    | inl (bytes, written) ↦ rw written (
      (λ p. (bytes, refl, (fetch-IsConfirmed bytes w).0 p)),
      (λ p.
          let (bytes', same, told) = p in
          (fetch-IsConfirmed bytes w).1 (
            subst (λ b. IsPut webhook b w.log (fetch_put bytes w).1.log) (sym (ap text_of same))
              told)),
    )
    | inr (x, refused) ↦ rw refused ((λ p. cc), (λ p. let (bytes, wrong, _) = p in cc))
  ]
