-- ===== src/Api/Errors.antt =====
-- Which HTTP status a failed prediction is answered with.
use serving_agent.Common.{◌≡◌, ◌↔◌, ◌⊎◌, arith}
use serving_agent.Platform.{
  RequestError, marshal_error, build_request_error, send_request_error, invalid_input_error,
}
use serving_agent.Api.{status, convert_error_code}

-- The error says that the client's request cannot be served as it is.
abbrev pub IsBadRequest : RequestError → Type 0
IsBadRequest e =
    (e.status_code ≡ marshal_error)
    ⊎ ((e.status_code ≡ build_request_error) ⊎ (e.status_code ≡ invalid_input_error))

-- A failed platform call is answered with 400 exactly for an error in marshalling or building the
-- request or for invalid input, with 403 exactly for an error in sending it, and with one of 400,
-- 403 and 500 always.
pub convert_error_code_statuses :
    (e : RequestError)
    → ((status (convert_error_code e) ≡ 400) ↔ IsBadRequest e)
      × ((status (convert_error_code e) ≡ 403) ↔ (e.status_code ≡ send_request_error))
      × ((status (convert_error_code e) ≡ 400)
          ⊎ ((status (convert_error_code e) ≡ 403) ⊎ (status (convert_error_code e) ≡ 500)))
unfolding convert_error_code
convert_error_code_statuses e = ground arith
