-- ===== src/Platform/InternalWebhook.antt =====
-- platform/webhook.go: the client of the webhook service, which keeps the task records.
pub mod Requests
pub mod Updates
pub mod Bounds
pub mod Store
use serving_agent.Common.{
  of_seconds, ℕ, String, Bool, true, false, Option, none, some, List, [], ◌∷◌, map, pos, Exec, pure,
  ◌>>=◌, ◌>>◌, plain, wrap, GoError, Result, ok, err, ◌==◌, itoa, ◌<>◌, if◌then◌else◌,
}
use serving_agent.Config.{Config}
use serving_agent.Http.{HttpRequest, HttpResponse, Http, Fetcher, closing}
use serving_agent.Platform.{
  Json, null, bool, str, obj, field, end, GoMap, get_key, TaskInfo, UpdateRequest, Webhook, Format,
  JsonCodec,
}
use serving_agent.Platform.KServe.{error_message}

pub record InternalWebhook : Type 0 where
  pub config : Config
  pub url : String

-- `NewInternalWebhook`, less the fetcher.
abbrev pub new_internal_webhook : Config → InternalWebhook
new_internal_webhook config = record {
  config = config;
  url = "http://" <> config.webhook_server_address <> "/task";
}

-- `json.Unmarshal` into a `TaskInfo`.
pub record TaskCodec : Type 0 where
  pub parse_task : String → Result TaskInfo

-- The body of `CreateNewTask`; Go writes a map's keys in order.
abbrev pub json_of_new_task : JsonCodec → String → String → String → ℕ → Json
json_of_new_task codec id model_name status queue_num = obj (
    field "id" (str id) (
      field "model_name" (str model_name)
        (field "queue_num" (codec.number queue_num) (field "status" (str status) end))))

-- An `UpdateRequest` by the tags of its fields.
abbrev pub json_of_update : UpdateRequest → Json
json_of_update u = obj (
    field "id" (str u.id) (
      field "status" (str u.status) (
        field "running_time" (str u.running_time) (
          field "outputs" u.outputs (
            field "error_info" (str u.error_info) (
              field "queue_id" (str u.queue_id)
                (field "database_only" (bool u.database_only) end)))))))

abbrev pub json_of_query : String → String → Json
json_of_query model_name status =
    obj (field "model_name" (str model_name) (field "status" (str status) end))

-- `fmt.Sprint(task["task_id"])`; what is missing is `nil`.
unfoldable pub id_of_task : Format → GoMap → String
id_of_task format task = elim (get_key "task_id" task) [
  | none ↦ format.sprint null
  | some id ↦ format.sprint id
]

module _ {W : Type 0} (format : Format) (codec : JsonCodec) (tasks : TaskCodec) (http : Http W)
    (fetcher : Fetcher W) (webhook : InternalWebhook) where
  -- `readErrorMessage`
  abbrev read_error_message : HttpResponse → Json
  read_error_message = error_message codec

  -- A request that could not be sent, or was answered with another status than 200.
  bad_status : String → HttpResponse → GoError
  bad_status what res = plain (
      what
      <> ", status code: "
      <> itoa res.status_code
      <> ", error: "
      <> format.sprint (read_error_message res))

  -- What follows `SendRequest`: `what` says what has failed, and `read` reads a response with
  -- status 200. The body is closed when the function returns.
  answered :
      {A : Type 0} → String → (HttpResponse → Result A) → Result HttpResponse → Exec W (Result A)
  answered what read (err e) = pure (err (wrap (what <> ": ") e))
  answered what read (ok res) =
      closing http res
        (if res.status_code == 200 then pure (read res) else pure (err (bad_status what res)))

  -- The request is built, sent with a timeout of ten seconds and at most three attempts, and read.
  fetch : {A : Type 0} → HttpRequest → String → (HttpResponse → Result A) → Exec W (Result A)
  fetch req what read =
      if http.builds req.method req.url
      then (do res ← fetcher.send_request req (of_seconds (pos 10)) 3; answered what read res)
      else pure (err (plain "failed to build request"))

  read_text : HttpResponse → Result String
  read_text res = elim res.body [
    | err e ↦ err (wrap "failed to read response body: " e)
    | ok body ↦ ok body
  ]

  read_json : HttpResponse → Result Json
  read_json res = elim res.body [
    | err e ↦ err (wrap "failed to read response body: " e)
    | ok body ↦ elim (codec.parse body) [
      | err e ↦ err (wrap "failed to unmarshal data: " e)
      | ok value ↦ ok value
    ]
  ]

  read_ids : HttpResponse → Result (List String)
  read_ids res = elim res.body [
    | err e ↦ err (wrap "failed to read response body: " e)
    | ok body ↦ elim (codec.parse_maps body) [
      | err e ↦ err (wrap "failed to unmarshal data: " e)
      | ok found ↦ ok (map (id_of_task format) found)
    ]
  ]

  -- What follows `json.Marshal`, whose error is replaced by the text `why`.
  with_body :
      {A : Type 0} → String → Result String → (String → Exec W (Result A)) → Exec W (Result A)
  with_body why (err _) send = pure (err (plain why))
  with_body why (ok bytes) send = send bytes

  abbrev request_of : String → String → Option String → List (String × String) → HttpRequest
  request_of method url body headers = record {
    method = method;
    url = url;
    body = body;
    host = "";
    headers = headers;
  }

  -- The header that every request has.
  abbrev apikey : String × String
  apikey = ("apikey", webhook.config.webhook_apikey)

  abbrev content_type : String × String
  content_type = ("Content-Type", "application/json")

  -- `CreateNewTask`
  create_new_task : String → String → String → String → ℕ → Exec W (Result String)
  create_new_task id uid model_name status queue_num =
      with_body "failed to marshal task info"
        (codec.write (json_of_new_task codec id model_name status queue_num))
        λ bytes.
          fetch
            (request_of "POST" webhook.url (some bytes) (content_type ∷ apikey ∷ ("UID", uid) ∷ []))
            "http post request /task failed" read_text

  -- `UpdateTaskInfo`
  update_task_info : UpdateRequest → Exec W (Result (Unit {0}))
  update_task_info info =
      with_body "failed to marshal task info" (codec.write (json_of_update info)) λ bytes.
        fetch (request_of "PUT" webhook.url (some bytes) (content_type ∷ apikey ∷ []))
          "failed to update task info" (λ res. ok tt)

  -- `GetTaskInfo`
  get_task_info : String → Exec W (Result Json)
  get_task_info id =
      fetch (request_of "GET" (webhook.url <> "/" <> id) none (apikey ∷ []))
        "failed to get task info" read_json

  -- The rest of `GetTaskInfoObject`: the record is written as JSON again and read as a `TaskInfo`.
  task_of : Result Json → Result TaskInfo
  task_of (err e) = err e
  task_of (ok info) = elim (codec.write info) [ err e ↦ err e | ok bytes ↦ tasks.parse_task bytes ]

  -- `GetTaskInfoObject`
  get_task_info_object : String → Exec W (Result TaskInfo)
  get_task_info_object id = do info ← get_task_info id; pure (task_of info)

  -- What follows `SendRequest` in `GetTaskIDByModelStatus`, where a status other than 200 means that
  -- no tasks were found.
  ids_answered : Result HttpResponse → Exec W (Result (List String))
  ids_answered (err e) = pure (err (wrap "failed to get task by model status: " e))
  ids_answered (ok res) =
      closing http res (if res.status_code == 200 then pure (read_ids res) else pure (ok []))

  fetch_ids : String → Exec W (Result (List String))
  fetch_ids bytes =
      if http.builds "GET" (webhook.url <> "/modelstatus")
      then (do
        res ←
            fetcher.send_request
              (request_of "GET" (webhook.url <> "/modelstatus") (some bytes) (apikey ∷ []))
              (of_seconds (pos 10)) 3
        ids_answered res)
      else pure (err (plain "failed to build request"))

  -- `GetTaskIDByModelStatus`
  get_task_id_by_model_status : String → String → Exec W (Result (List String))
  get_task_id_by_model_status model_name status =
      with_body "failed to marshal model_name and status"
        (codec.write (json_of_query model_name status)) fetch_ids

  -- `InternalWebhook` as a `Webhook`.
  unfoldable pub internal_webhook : Webhook W
  unfolding bad_status answered fetch read_text read_json read_ids with_body create_new_task
      update_task_info get_task_info task_of get_task_info_object ids_answered fetch_ids
      get_task_id_by_model_status
  internal_webhook = record {
    create_new_task = create_new_task;
    update_task_info = update_task_info;
    get_task_info = get_task_info;
    get_task_info_object = get_task_info_object;
    get_task_id_by_model_status = get_task_id_by_model_status;
  }
