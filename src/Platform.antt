-- ===== src/Platform.antt =====
-- platform/base.go and platform/error.go: the data that the agent exchanges with its webhook
-- service and with the model platforms, and the interfaces `Platform` and `Webhook`. JSON values are
-- Go's `interface{}`; a float64 is held as its bit pattern.
pub mod Values
pub mod Codec
pub mod KServe
pub mod InternalWebhook
pub mod Remote
pub mod Fetcher
pub mod RunPod
pub mod Replicate
pub mod K8s
unfoldable pub use Values.*
unfoldable pub use Codec.*
use serving_agent.Common.{
  ℕ, String, Bool, false, List, Exec, GoError, plain, message, Result, itoa, ◌<>◌,
}

-- platform/error.go
abbrev pub internal_error : ℕ
internal_error = 20000

abbrev pub marshal_error : ℕ
marshal_error = 20001

abbrev pub build_request_error : ℕ
build_request_error = 20002

abbrev pub send_request_error : ℕ
send_request_error = 20003

abbrev pub read_response_error : ℕ
read_response_error = 20004

abbrev pub unmarshal_response_error : ℕ
unmarshal_response_error = 20005

abbrev pub unknown_api_version : ℕ
unknown_api_version = 20006

abbrev pub invalid_input_error : ℕ
invalid_input_error = 20007

pub record RequestError : Type 0 where
  pub status_code : ℕ
  pub cause : GoError

abbrev pub new_request_error : ℕ → GoError → RequestError
new_request_error code e = record { status_code = code; cause = e }

-- The method `Error` of `RequestError`.
unfoldable pub error_text : RequestError → String
error_text r = "status " <> itoa r.status_code <> ": " <> message r.cause

pub record InferRequest : Type 0 where
  pub model_name : String
  pub inputs : GoMap

pub record InferResponse : Type 0 where
  pub outputs : GoMap

pub record DocsRequest : Type 0 where
  pub model_name : String

-- `created_at` counts nanoseconds from the zero value of `time.Time`.
pub record TaskInfo : Type 0 where
  pub id : String
  pub status : String
  pub running_time : String
  pub outputs : Json
  pub created_at : ℕ
  pub error_info : String
  pub queue_id : String

pub record UpdateRequest : Type 0 where
  pub id : String
  pub status : String
  pub running_time : String
  pub outputs : Json
  pub error_info : String
  pub queue_id : String
  pub database_only : Bool

-- `UpdateRequest{ID: id}`: Go gives the other fields their zero values.
abbrev pub update_of : String → UpdateRequest
update_of id = record {
  id = id;
  status = "";
  running_time = "";
  outputs = null;
  error_info = "";
  queue_id = "";
  database_only = false;
}

-- What a platform call comes to. A failed type assertion in the callee panics.
pub data Served (A : Type 0) : Type 0 where
  served : A → Served A
  failure : RequestError → Served A
  panic : String → Served A

-- The interface `Platform`; the context, encoder and flusher of `Generate` are part of the world.
pub record Platform (W : Type 0) : Type 0 where
  pub predict : InferRequest → String → Exec W (Served InferResponse)
  pub generate : InferRequest → String → Exec W (Served (Unit {0}))
  pub docs : DocsRequest → Exec W (Served Json)

-- The interface `Webhook`.
pub record Webhook (W : Type 0) : Type 0 where
  pub create_new_task : String → String → String → String → ℕ → Exec W (Result String)
  pub update_task_info : UpdateRequest → Exec W (Result (Unit {0}))
  pub get_task_info : String → Exec W (Result Json)
  pub get_task_info_object : String → Exec W (Result TaskInfo)
  pub get_task_id_by_model_status : String → String → Exec W (Result (List String))
