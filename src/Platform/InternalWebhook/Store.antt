-- ===== src/Platform/InternalWebhook/Store.antt =====
-- The webhook client over a service that keeps task records under the addresses that the client
-- uses: to the checks it is a store of records.
use serving_agent.Common.{
  false, eq_iff, ℕ, ℤ, pos, of_seconds, String, ◌≡◌, ◌≢◌, true, Option, none, some, Result, ok, err,
  ◌<>◌, str_eq, if◌then◌else◌, Bool-cases, inl, inr, refl, ◌==◌, arith, ◌∙◌,
}
use serving_agent.Http.{HttpRequest, HttpResponse, Http, Fetcher}
use serving_agent.Platform.{UpdateRequest, TaskInfo, Json, Webhook, Format, JsonCodec}
use serving_agent.Platform.InternalWebhook.{
  InternalWebhook, TaskCodec, json_of_update, answered, fetch, with_body, read_json, task_of,
  update_task_info, get_task_info, get_task_info_object, internal_webhook,
}
use serving_agent.Worker.Distributor.Records.{
  Entry, Copies, Answers, written, RecordStore, IsReachable,
}

-- The record is the JSON value in the body; it can be written again and read as a task.
abbrev pub Reads : JsonCodec → TaskCodec → HttpResponse → Entry → Type 0
Reads codec tasks res t =
    (text : String) × (info : Json) × (bytes : String) × (task : TaskInfo) × (res.body ≡ ok text)
    × (codec.parse text ≡ ok info)
    × (codec.write info ≡ ok bytes)
    × (tasks.parse_task bytes ≡ ok task)
    × (task.status ≡ t.status)
    × (task.queue_id ≡ t.queue_id)

-- The answer to a question about a record: another status than 200 where there is none.
abbrev pub Shows : JsonCodec → TaskCodec → Option Entry → Result HttpResponse → Type 0
Shows codec tasks none (err _) = Unit
Shows codec tasks none (ok res) = res.status_code ≢ 200
Shows codec tasks (some t) (err _) = ⊥
Shows codec tasks (some t) (ok res) = (res.status_code ≡ 200) × Reads codec tasks res t

-- Not code: what is documented of the webhook service, as the fetcher meets it at `url` while it can
-- be reached. A record that can be shown has an address that a request can be built for.
pub record RecordService {E : Type 0} (codec : JsonCodec) (tasks : TaskCodec) (http : Http E)
    (fetcher : Fetcher E) (url : String) : Type 0 where
  pub copies : E → String → Copies
  pub bytes_of : UpdateRequest → String
  pub write-update : (u : UpdateRequest) → codec.write (json_of_update u) ≡ ok (bytes_of u)
  pub builds-put : http.builds "PUT" url ≡ true
  pub builds-get :
      (id : String) (t : Entry) (e : E)
      → (copies e id).0 ≡ some t
      → http.builds "GET" (url <> "/" <> id) ≡ true
  pub copies-close :
      (res : HttpResponse) (k : String) (e : E) → copies (http.close res e).1 k ≡ copies e k
  pub put-200 :
      (u : UpdateRequest) (req : HttpRequest) (t : ℤ) (n : ℕ) (e : E)
      → req.method ≡ "PUT"
      → req.url ≡ url
      → req.body ≡ some (bytes_of u)
      → (text : Result String) × ((fetcher.send_request req t n e).0
          ≡ ok (record { status_code = 200; body = text }))
  pub copies-put :
      (u : UpdateRequest) (req : HttpRequest) (t : ℤ) (n : ℕ) (k : String) (e : E)
      → req.method ≡ "PUT"
      → req.url ≡ url
      → req.body ≡ some (bytes_of u)
      → copies (fetcher.send_request req t n e).1 k
        ≡ (if str_eq u.id k then written u (copies e k) else copies e k)
  pub copies-get :
      (id : String) (req : HttpRequest) (t : ℤ) (n : ℕ) (k : String) (e : E)
      → req.method ≡ "GET"
      → req.url ≡ url <> "/" <> id
      → req.body ≡ none
      → copies (fetcher.send_request req t n e).1 k ≡ copies e k
  pub get-Shows :
      (id : String) (req : HttpRequest) (t : ℤ) (n : ℕ) (e : E)
      → req.method ≡ "GET"
      → req.url ≡ url <> "/" <> id
      → req.body ≡ none
      → Shows codec tasks (copies e id).0 (fetcher.send_request req t n e).0

module _ {E : Type 0} (format : Format) (codec : JsonCodec) (tasks : TaskCodec) (http : Http E)
    (fetcher : Fetcher E) (webhook : InternalWebhook)
    (service : RecordService codec tasks http fetcher webhook.url) where
  open service use {
    copies, bytes_of, write-update, builds-put, builds-get, copies-close, put-200, copies-put,
    copies-get, get-Shows,
  }

  abbrev pub client : Webhook E
  client = internal_webhook format codec tasks http fetcher webhook

  copies-answered :
      {A : Type 0} (what : String) (read : HttpResponse → Result A) (res : Result HttpResponse)
      (k : String) (e : E)
      → copies (answered format codec tasks http fetcher webhook what read res e).1 k ≡ copies e k
  unfolding answered
  copies-answered what read (err x) k e = refl
  copies-answered what read (ok res) k e = elim (Bool-cases (res.status_code == 200)) [
    | inl good ↦ rw good (copies-close res k e)
    | inr bad ↦ rw bad (copies-close res k e)
  ]

  copies-fetch :
      {A : Type 0} (req : HttpRequest) (what : String) (read : HttpResponse → Result A) (k : String)
      (e : E)
      → http.builds req.method req.url ≡ true
      → copies (fetch format codec tasks http fetcher webhook req what read e).1 k
        ≡ copies (fetcher.send_request req (of_seconds (pos 10)) 3 e).1 k
  unfolding fetch
  copies-fetch req what read k e builds =
      let (res, e₁) = fetcher.send_request req (of_seconds (pos 10)) 3 e in
      rw builds (copies-answered what read res k e₁)

  client-update :
      (u : UpdateRequest) (k : String) (e : E)
      → copies (client.update_task_info u e).1 k
        ≡ (if str_eq u.id k then written u (copies e k) else copies e k)
  unfolding internal_webhook update_task_info with_body
  client-update u k e = rw (write-update u) (
      copies-fetch _ "failed to update task info" _ k e builds-put
      ∙ copies-put u _ (of_seconds (pos 10)) 3 k e refl refl refl)

  pub client-copies-update :
      (u : UpdateRequest) (e : E)
      → (client.update_task_info u e).0 ≡ ok tt
      → copies (client.update_task_info u e).1 u.id ≡ written u (copies e u.id)
  client-copies-update u e good = client-update u u.id e ∙ rw ((eq_iff u.id u.id).1 refl) refl

  pub client-copies-others :
      (u : UpdateRequest) (k : String) (e : E)
      → str_eq u.id k ≡ false
      → copies (client.update_task_info u e).1 k ≡ copies e k
  client-copies-others u k e other = client-update u k e ∙ rw other refl

  accepted :
      {A : Type 0} (what : String) (text : Result String) (value : A) (a : Result HttpResponse)
      (e : E)
      → a ≡ ok (record { status_code = 200; body = text })
      → (answered format codec tasks http fetcher webhook what (λ res. ok value) a e).0 ≡ ok value
  unfolding answered
  accepted what text value a e is = rw is refl

  client-update-ok : (u : UpdateRequest) (e : E) → (client.update_task_info u e).0 ≡ ok tt
  unfolding internal_webhook update_task_info with_body fetch
  client-update-ok u e =
      let (text, is) = put-200 u _ (of_seconds (pos 10)) 3 e refl refl refl in
      rw (write-update u, builds-put) (accepted "failed to update task info" text tt _ _ is)

  pub client-copies-get :
      (id k : String) (e : E) → copies (client.get_task_info_object id e).1 k ≡ copies e k
  unfolding internal_webhook get_task_info_object get_task_info fetch
  client-copies-get id k e = elim (Bool-cases (http.builds "GET" (webhook.url <> "/" <> id))) [
    | inl built ↦
        copies-fetch _ "failed to get task info" _ k e built
        ∙ copies-get id _ (of_seconds (pos 10)) 3 k e refl refl refl
    | inr unbuilt ↦ rw unbuilt refl
  ]

  read-Answers :
      (t : Entry) (res : HttpResponse)
      → Reads codec tasks res t
      → Answers (some t) (
          task_of format codec tasks http fetcher webhook
            (read_json format codec tasks http fetcher webhook res))
  unfolding read_json task_of
  read-Answers t res (text, info, bytes, task, is_text, is_info, is_bytes, is_task, same, same_id) =
      rw (is_text, read_json, is_info, is_bytes, task_of, is_task) (same, same_id)

  answered-Answers :
      (v : Option Entry) (res : Result HttpResponse) (what : String) (e : E)
      → Shows codec tasks v res
      → Answers v (
          task_of format codec tasks http fetcher webhook
            (answered format codec tasks http fetcher webhook what
              (read_json format codec tasks http fetcher webhook)
              res
              e).0)
  unfolding answered task_of
  answered-Answers none (err x) what e h = tt
  answered-Answers none (ok res) what e h = elim (Bool-cases (res.status_code == 200)) [
    | inl good ↦ elim (h (ground (arith, good))) [ ]
    | inr bad ↦ rw bad tt
  ]
  answered-Answers (some t) (err x) what e h = elim h [ ]
  answered-Answers (some t) (ok res) what e h = elim (Bool-cases (res.status_code == 200)) [
    | inl good ↦ rw good (read-Answers t res h.1)
    | inr bad ↦ ground (arith, bad, h.0)
  ]

  built-Answers :
      (id : String) (e : E)
      → http.builds "GET" (webhook.url <> "/" <> id) ≡ true
      → Answers (copies e id).0 (client.get_task_info_object id e).0
  unfolding internal_webhook get_task_info_object get_task_info fetch
  built-Answers id e built = rw built (
      answered-Answers (copies e id).0 _ "failed to get task info" _
        (get-Shows id _ (of_seconds (pos 10)) 3 e refl refl refl))

  unbuilt-Answers :
      (id : String) (e : E) (v : Option Entry)
      → (copies e id).0 ≡ v
      → http.builds "GET" (webhook.url <> "/" <> id) ≡ false
      → Answers v (client.get_task_info_object id e).0
  unfolding internal_webhook get_task_info_object get_task_info fetch task_of
  unbuilt-Answers id e none is unbuilt = rw unbuilt tt
  unbuilt-Answers id e (some t) is unbuilt = cc (unbuilt, builds-get id t e is)

  client-get-Answers :
      (id : String) (e : E) → Answers (copies e id).0 (client.get_task_info_object id e).0
  client-get-Answers id e = elim (Bool-cases (http.builds "GET" (webhook.url <> "/" <> id))) [
    | inl built ↦ built-Answers id e built
    | inr unbuilt ↦ unbuilt-Answers id e (copies e id).0 refl unbuilt
  ]

  -- The client as the checks see it.
  unfoldable pub client_store : RecordStore client
  client_store = record {
    copies = copies;
    copies-get = client-copies-get;
    copies-update = client-copies-update;
    copies-others = client-copies-others;
  }

  pub client-IsReachable : IsReachable client client_store
  unfolding client_store
  client-IsReachable = record { update-ok = client-update-ok; get-Answers = client-get-Answers }
