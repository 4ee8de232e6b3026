-- ===== src/Platform/InternalWebhook/Requests.antt =====
-- What the webhook client sends and closes, over any network.
use serving_agent.Common.{
  ℕ, String, ◌≡◌, ◌⊎◌, inl, inr, refl, List, [], ◌∷◌, Result, ok, err, Bool-cases, ◌==◌, Exec, ◌<>◌,
}
use serving_agent.Http.{HttpRequest, HttpResponse, Http, Fetcher}
use serving_agent.Http.Record.{
  HttpCall, sent, closed, HttpWorld, fresh, recorded_http, recorded_fetcher,
}
use serving_agent.Platform.{UpdateRequest, Webhook, Format, JsonCodec}
use serving_agent.Platform.InternalWebhook.{
  InternalWebhook, TaskCodec, json_of_new_task, json_of_query, with_body, fetch_ids, answered,
  fetch, json_of_update, create_new_task, update_task_info, get_task_info, get_task_info_object,
  get_task_id_by_model_status, ids_answered, internal_webhook,
}

abbrev pub IsHeader : String × String → List (String × String) → Type 0
IsHeader h [] = ⊥
IsHeader h (k ∷ ks) = (k ≡ h) ⊎ IsHeader h ks

-- The log of one call: at most one request, which carries the API key, and whose response, if it
-- has one, was closed.
abbrev pub OneExchange : String → List HttpCall → Type 0
OneExchange key [] = Unit
OneExchange key (sent req (err _) ∷ []) = IsHeader ("apikey", key) req.headers
OneExchange key (closed res ∷ sent req (ok res') ∷ []) =
    (res ≡ res') × IsHeader ("apikey", key) req.headers
OneExchange key _ = ⊥

module _ {E : Type 0} (format : Format) (codec : JsonCodec) (tasks : TaskCodec) (http : Http E)
    (fetcher : Fetcher E) (webhook : InternalWebhook) where
  abbrev key : String
  key = webhook.config.webhook_apikey

  abbrev pub client : Webhook (HttpWorld E)
  client =
      internal_webhook format codec tasks (recorded_http http) (recorded_fetcher fetcher) webhook

  answered-OneExchange :
      {A : Type 0} (what : String) (read : HttpResponse → Result A) (req : HttpRequest)
      (res : Result HttpResponse) (e : E)
      → IsHeader ("apikey", key) req.headers
      → OneExchange key
          (answered format codec tasks
            (recorded_http http)
            (recorded_fetcher fetcher)
            webhook
            what
            read
            res
            (record { env = e; log = sent req res ∷ [] })).1.log
  unfolding answered
  answered-OneExchange what read req (err x) e h = h
  answered-OneExchange what read req (ok res) e h = elim (Bool-cases (res.status_code == 200)) [
    | inl good ↦ rw good (refl, h)
    | inr bad ↦ rw bad (refl, h)
  ]

  fetch-OneExchange :
      {A : Type 0} (req : HttpRequest) (what : String) (read : HttpResponse → Result A) (e : E)
      → IsHeader ("apikey", key) req.headers
      → OneExchange key
          (fetch format codec tasks
            (recorded_http http)
            (recorded_fetcher fetcher)
            webhook
            req
            what
            read
            (fresh e)).1.log
  unfolding fetch
  fetch-OneExchange req what read e h = elim (Bool-cases (http.builds req.method req.url)) [
    | inl valid ↦ rw valid (answered-OneExchange what read req _ _ h)
    | inr invalid ↦ rw invalid tt
  ]

  with_body-OneExchange :
      {A : Type 0} (why : String) (body : Result String)
      (send : String → Exec (HttpWorld E) (Result A)) (e : E)
      → ((bytes : String) → OneExchange key (send bytes (fresh e)).1.log)
      → OneExchange key
          (with_body format codec tasks
            (recorded_http http)
            (recorded_fetcher fetcher)
            webhook
            why
            body
            send
            (fresh e)).1.log
  unfolding with_body
  with_body-OneExchange why (err x) send e h = tt
  with_body-OneExchange why (ok bytes) send e h = h bytes

  create-OneExchange :
      (id uid model status : String) (n : ℕ) (e : E)
      → OneExchange key (client.create_new_task id uid model status n (fresh e)).1.log
  unfolding internal_webhook create_new_task
  create-OneExchange id uid model status n e =
      with_body-OneExchange _ (codec.write (json_of_new_task codec id model status n)) _ e
        λ bytes. fetch-OneExchange _ "http post request /task failed" _ e (inr (inl refl))

  update-OneExchange :
      (u : UpdateRequest) (e : E) → OneExchange key (client.update_task_info u (fresh e)).1.log
  unfolding internal_webhook update_task_info
  update-OneExchange u e =
      with_body-OneExchange _ (codec.write (json_of_update u)) _ e
        λ bytes. fetch-OneExchange _ "failed to update task info" _ e (inr (inl refl))

  get-OneExchange :
      (id : String) (e : E) → OneExchange key (client.get_task_info id (fresh e)).1.log
  unfolding internal_webhook get_task_info
  get-OneExchange id e = fetch-OneExchange _ "failed to get task info" _ e (inl refl)

  get_object-OneExchange :
      (id : String) (e : E) → OneExchange key (client.get_task_info_object id (fresh e)).1.log
  unfolding internal_webhook get_task_info_object get_task_info
  get_object-OneExchange id e = fetch-OneExchange _ "failed to get task info" _ e (inl refl)

  ids_answered-OneExchange :
      (req : HttpRequest) (res : Result HttpResponse) (e : E)
      → IsHeader ("apikey", key) req.headers
      → OneExchange key
          (ids_answered format codec tasks
            (recorded_http http)
            (recorded_fetcher fetcher)
            webhook
            res
            (record { env = e; log = sent req res ∷ [] })).1.log
  unfolding ids_answered
  ids_answered-OneExchange req (err x) e h = h
  ids_answered-OneExchange req (ok res) e h = elim (Bool-cases (res.status_code == 200)) [
    | inl good ↦ rw good (refl, h)
    | inr bad ↦ rw bad (refl, h)
  ]

  fetch_ids-OneExchange :
      (bytes : String) (e : E)
      → OneExchange key
          (fetch_ids format codec tasks
            (recorded_http http)
            (recorded_fetcher fetcher)
            webhook
            bytes
            (fresh e)).1.log
  unfolding fetch_ids
  fetch_ids-OneExchange bytes e =
      elim (Bool-cases (http.builds "GET" (webhook.url <> "/modelstatus"))) [
        | inl valid ↦ rw valid (ids_answered-OneExchange _ _ _ (inl refl))
        | inr invalid ↦ rw invalid tt
      ]

  by_status-OneExchange :
      (model status : String) (e : E)
      → OneExchange key (client.get_task_id_by_model_status model status (fresh e)).1.log
  unfolding internal_webhook get_task_id_by_model_status
  by_status-OneExchange model status e =
      with_body-OneExchange _ (codec.write (json_of_query model status)) _ e
        λ bytes. fetch_ids-OneExchange bytes e

  -- Each of the five calls of the webhook client hands at most one request to the fetcher, the
  -- request carries the configured API key, and if a response arrives, it is closed once, as the
  -- last thing done.
  pub internal_webhook-OneExchange :
      (e : E)
      → ((id uid model status : String) (n : ℕ)
          → OneExchange key (client.create_new_task id uid model status n (fresh e)).1.log)
        × ((u : UpdateRequest) → OneExchange key (client.update_task_info u (fresh e)).1.log)
        × ((id : String) → OneExchange key (client.get_task_info id (fresh e)).1.log)
        × ((id : String) → OneExchange key (client.get_task_info_object id (fresh e)).1.log)
        × ((model status : String)
            → OneExchange key (client.get_task_id_by_model_status model status (fresh e)).1.log)
  internal_webhook-OneExchange e = (
    (λ id uid model status n. create-OneExchange id uid model status n e),
    (λ u. update-OneExchange u e),
    (λ id. get-OneExchange id e),
    (λ id. get_object-OneExchange id e),
    (λ model status. by_status-OneExchange model status e),
  )
