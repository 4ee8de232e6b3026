-- ===== src/Platform/InternalWebhook/Bounds.antt =====
-- How much a call of the webhook client sends with the fetcher of the source, over any network.
use serving_agent.Common.{
  Option, of_seconds, ℕ, zero, suc, ◌+◌, ◌≤◌, String, ◌≡◌, refl, List, [], ◌∷◌, arith, Result, ok,
  err, Bool-cases, inl, inr, ◌==◌, Exec, pos, ◌<>◌,
}
use serving_agent.Http.{HttpRequest, HttpResponse, Http, Fetcher}
use serving_agent.Http.Record.{
  HttpCall, sent, HttpWorld, fresh, recorded_http, num_sent, num_opened, num_closed,
}
use serving_agent.Platform.{UpdateRequest, Webhook, Format, JsonCodec}
use serving_agent.Platform.Fetcher.{Retry, Retries, webhook_fetcher}
use serving_agent.Platform.Fetcher.Attempts.{
  Failures, IsTried, IsSilent, ReadsQuietly, fetcher-IsTried,
}
use serving_agent.Platform.InternalWebhook.{
  InternalWebhook, TaskCodec, json_of_new_task, json_of_query, with_body, fetch_ids, answered,
  fetch, json_of_update, create_new_task, update_task_info, get_task_info, get_task_info_object,
  get_task_id_by_model_status, ids_answered, internal_webhook,
}

-- A call that is over: at most three requests, and no response left open.
pub record IsBrief (log : List HttpCall) : Type 0 where
  pub few : num_sent log ≤ 3
  pub all_closed : num_opened log ≡ num_closed log

abbrev num_held : Result HttpResponse → ℕ
num_held (ok _) = 1
num_held (err _) = 0

-- A request that is over, whose response is still open.
record IsAsked (answer : Result HttpResponse) (log : List HttpCall) : Type 0 where
  few : num_sent log ≤ 3
  left_open : num_opened log ≡ num_closed log + num_held answer

Failures-counts :
    (req : HttpRequest) (n : ℕ) (log : List HttpCall)
    → Failures req n [] log
    → (num_sent log ≡ n) × (num_opened log ≡ 0) × (num_closed log ≡ 0)
Failures-counts req zero log h = rw h (refl, refl, refl)
Failures-counts req (suc n) [] h = absurd h
Failures-counts req (suc n) (sent r (err _) ∷ log) h =
    let (sends, opens, closes) = Failures-counts req n log h.1 in
    (omega (arith, sends), opens, closes)
Failures-counts req (suc n) (_ ∷ log) h = absurd h

IsTried-IsAsked :
    (req : HttpRequest) (answer : Result HttpResponse) (log : List HttpCall)
    → IsTried req 3 [] answer log
    → IsAsked answer log
IsTried-IsAsked req (ok res) (sent r (ok last) ∷ log) (h₁, h₂, n, few, failed) =
    let (sends, opens, closes) = Failures-counts req n log failed in
    record { few = omega (arith, sends, few); left_open = omega (arith, opens, closes) }
IsTried-IsAsked req (ok res) _ h = absurd h
IsTried-IsAsked req (err x) log h =
    let (sends, opens, closes) = Failures-counts req 3 log h in
    record { few = omega (arith, sends); left_open = omega (arith, opens, closes) }

module _ {E : Type 0} (format : Format) (codec : JsonCodec) (tasks : TaskCodec) (http : Http E)
    (retry : Retry (HttpWorld E)) (remaining : HttpRequest → Exec (HttpWorld E) (Option String))
    (webhook : InternalWebhook) where
  abbrev fetcher : Fetcher (HttpWorld E)
  fetcher = webhook_fetcher (recorded_http http) retry remaining

  abbrev pub whole_client : Webhook (HttpWorld E)
  whole_client = internal_webhook format codec tasks (recorded_http http) fetcher webhook

  answered-IsBrief :
      {A : Type 0} (what : String) (read : HttpResponse → Result A) (res : Result HttpResponse)
      (w : HttpWorld E)
      → IsAsked res w.log
      → IsBrief
          (answered format codec tasks (recorded_http http) fetcher webhook what read res w).1.log
  unfolding answered
  answered-IsBrief what read (err x) w h = omega (arith, h.few, h.left_open)
  answered-IsBrief what read (ok res) w h = elim (Bool-cases (res.status_code == 200)) [
    | inl good ↦ rw good (omega (arith, h.few, h.left_open))
    | inr bad ↦ rw bad (omega (arith, h.few, h.left_open))
  ]

  ids_answered-IsBrief :
      (res : Result HttpResponse) (w : HttpWorld E)
      → IsAsked res w.log
      → IsBrief (ids_answered format codec tasks (recorded_http http) fetcher webhook res w).1.log
  unfolding ids_answered
  ids_answered-IsBrief (err x) w h = omega (arith, h.few, h.left_open)
  ids_answered-IsBrief (ok res) w h = elim (Bool-cases (res.status_code == 200)) [
    | inl good ↦ rw good (omega (arith, h.few, h.left_open))
    | inr bad ↦ rw bad (omega (arith, h.few, h.left_open))
  ]

  module _ (retried : Retries retry) (silent : IsSilent retry.pause)
      (reads : ReadsQuietly remaining) where
    asked :
        (req : HttpRequest) (e : E)
        → let (answer, w) = fetcher.send_request req (of_seconds (pos 10)) 3 (fresh e) in
          IsAsked answer w.log
    asked req e = IsTried-IsAsked req _ _ (
        fetcher-IsTried http retry remaining req (of_seconds (pos 10)) 2 (fresh e) retried silent
          reads)

    fetch-IsBrief :
        {A : Type 0} (req : HttpRequest) (what : String) (read : HttpResponse → Result A) (e : E)
        → IsBrief
            (fetch format codec tasks
              (recorded_http http)
              fetcher
              webhook
              req
              what
              read
              (fresh e)).1.log
    unfolding fetch
    fetch-IsBrief req what read e = elim (Bool-cases (http.builds req.method req.url)) [
      | inl valid ↦ rw valid (answered-IsBrief what read _ _ (asked req e))
      | inr invalid ↦ rw invalid (omega arith)
    ]

    fetch_ids-IsBrief :
        (bytes : String) (e : E)
        → IsBrief
            (fetch_ids format codec tasks
              (recorded_http http)
              fetcher
              webhook
              bytes
              (fresh e)).1.log
    unfolding fetch_ids
    fetch_ids-IsBrief bytes e =
        elim (Bool-cases (http.builds "GET" (webhook.url <> "/modelstatus"))) [
          | inl valid ↦ rw valid (ids_answered-IsBrief _ _ (asked _ e))
          | inr invalid ↦ rw invalid (omega arith)
        ]

    with_body-IsBrief :
        {A : Type 0} (why : String) (body : Result String)
        (send : String → Exec (HttpWorld E) (Result A)) (e : E)
        → ((bytes : String) → IsBrief (send bytes (fresh e)).1.log)
        → IsBrief
            (with_body format codec tasks
              (recorded_http http)
              fetcher
              webhook
              why
              body
              send
              (fresh e)).1.log
    unfolding with_body
    with_body-IsBrief why (err x) send e h = omega arith
    with_body-IsBrief why (ok bytes) send e h = h bytes

    create-IsBrief :
        (id uid model status : String) (n : ℕ) (e : E)
        → IsBrief (whole_client.create_new_task id uid model status n (fresh e)).1.log
    unfolding internal_webhook create_new_task
    create-IsBrief id uid model status n e =
        with_body-IsBrief _ (codec.write (json_of_new_task codec id model status n)) _ e
          λ bytes. fetch-IsBrief _ "http post request /task failed" _ e

    update-IsBrief :
        (u : UpdateRequest) (e : E) → IsBrief (whole_client.update_task_info u (fresh e)).1.log
    unfolding internal_webhook update_task_info
    update-IsBrief u e =
        with_body-IsBrief _ (codec.write (json_of_update u)) _ e
          λ bytes. fetch-IsBrief _ "failed to update task info" _ e

    get-IsBrief : (id : String) (e : E) → IsBrief (whole_client.get_task_info id (fresh e)).1.log
    unfolding internal_webhook get_task_info
    get-IsBrief id e = fetch-IsBrief _ "failed to get task info" _ e

    get_object-IsBrief :
        (id : String) (e : E) → IsBrief (whole_client.get_task_info_object id (fresh e)).1.log
    unfolding internal_webhook get_task_info_object get_task_info
    get_object-IsBrief id e = fetch-IsBrief _ "failed to get task info" _ e

    by_status-IsBrief :
        (model status : String) (e : E)
        → IsBrief (whole_client.get_task_id_by_model_status model status (fresh e)).1.log
    unfolding internal_webhook get_task_id_by_model_status
    by_status-IsBrief model status e =
        with_body-IsBrief _ (codec.write (json_of_query model status)) _ e
          λ bytes. fetch_ids-IsBrief bytes e

    -- If retry-go tries a function until it returns no error and at most as often as it is told,
    -- and neither its waits nor a look at what is left of a request's body send anything, then
    -- each of the five calls of the webhook client with its own fetcher sends at most three
    -- requests, and closes as many responses as it opened.
    pub whole_client-IsBrief :
        (e : E)
        → ((id uid model status : String) (n : ℕ)
            → IsBrief (whole_client.create_new_task id uid model status n (fresh e)).1.log)
          × ((u : UpdateRequest) → IsBrief (whole_client.update_task_info u (fresh e)).1.log)
          × ((id : String) → IsBrief (whole_client.get_task_info id (fresh e)).1.log)
          × ((id : String) → IsBrief (whole_client.get_task_info_object id (fresh e)).1.log)
          × ((model status : String)
              → IsBrief (whole_client.get_task_id_by_model_status model status (fresh e)).1.log)
    whole_client-IsBrief e = (
      (λ id uid model status n. create-IsBrief id uid model status n e),
      (λ u. update-IsBrief u e),
      (λ id. get-IsBrief id e),
      (λ id. get_object-IsBrief id e),
      (λ model status. by_status-IsBrief model status e),
    )
