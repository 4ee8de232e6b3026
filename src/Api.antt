-- ===== src/Api.antt =====
-- api/: the server, the replies of its handlers, and the parts that the handlers share.
pub mod Predict
pub mod Queue
pub mod Errors
pub mod Tasks
pub mod Router
use serving_agent.Common.{
  ℕ, String, ◌||◌, Bool, true, Option, none, some, GoError, message, ◌<>◌, ◌==◌, str_eq,
  if◌then◌else◌,
}
use serving_agent.Config.{Config}
use serving_agent.Platform.{
  Json, str, obj, field, end, set_key, InferRequest, Platform, Webhook, RequestError, error_text,
  marshal_error, build_request_error, send_request_error, invalid_input_error,
}
use serving_agent.Worker.{TaskDistributor}

-- api/server.go; the router is the table of handlers.
pub record Server (W : Type 0) : Type 0 where
  pub config : Config
  pub platform : Platform W
  pub distributor : TaskDistributor W
  pub webhook : Webhook W

-- What a handler leaves with gin: a status and a JSON body, Go's plain 404, a stream of messages
-- that has been written already, an error that is written after a part of such a stream, or a panic,
-- which gin answers with 500 and no body, if nothing has been sent.
pub data Reply : Type 0 where
  json : ℕ → Json → Reply
  not_found : Reply
  streamed : Reply
  broken : Json → Reply
  panicked : String → Reply

-- The status that gin's writer has afterwards. One that has been sent stays.
abbrev pub status : Reply → ℕ
status (json code body) = code
status not_found = 404
status streamed = 200
status (broken body) = 200
status (panicked m) = 500

-- `errorResponse`
unfoldable pub error_response : String → Json
error_response e = obj (field "error" (str e) end)

-- gin's response writer, as a handler finds it: `flushes` says whether it is an `http.Flusher`, and
-- `written` whether the header has been sent when the platform's `Generate` returns.
pub record ResponseWriter : Type 0 where
  pub flushes : Bool
  pub written : Bool

-- `ctx.JSON`, after the header has been sent or before: the status is then the one that was sent.
abbrev pub after_header : Bool → Reply → Reply
after_header true (json code body) = broken body
after_header _ reply = reply

abbrev pub error_reply : ℕ → GoError → Reply
error_reply code e = json code (error_response (message e))

-- `convertErrorCode`
unfoldable pub convert_error_code : RequestError → Reply
convert_error_code e =
    let body = error_response (error_text e) in
    if e.status_code == marshal_error
    then json 400 body
    else if e.status_code == build_request_error
    then json 400 body
    else if e.status_code == send_request_error
    then json 403 body
    else if e.status_code == invalid_input_error
    then json 400 body
    else json 500 body

-- The platforms whose models upload their results.
unfoldable pub uploads_results : String → Bool
uploads_results p = str_eq p "kserve" || str_eq p "k8s" || str_eq p "k8s-plugin"

-- The head of the three prediction handlers, which write the upload address into the inputs; `none`
-- is the panic of a write to a nil map.
unfoldable pub with_upload_webhook : Config → InferRequest → Option InferRequest
unfolding uploads_results set_key
with_upload_webhook config req =
    if uploads_results config.ml_platform
    then elim (set_key "upload_webhook"
        (str ("http://" <> config.upload_webhook_address <> "/upload")) req.inputs) [
          | none ↦ none
          | some inputs ↦ some (record req { inputs = inputs })
        ]
    else some req

abbrev pub nil_map_write : String
nil_map_write = "assignment to entry in nil map"
