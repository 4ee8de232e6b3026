-- ===== src/Platform/KServe.antt =====
-- platform/kserve.go: requests to a KServe model, with retries, and the streaming of its answer.
pub mod Retries
pub mod Bodies
pub mod Streaming
use serving_agent.Common.{
  of_seconds, ℕ, zero, suc, ◌+◌, ◌*◌, String, Bool, ◌&&◌, true, false, Option, none, some, List, [],
  ◌∷◌, ℤ, pos, Exec, pure, ◌>>=◌, ◌>>◌, plain, wrap, Result, ok, err, ltb, leb, ◌==◌, str_eq, itoa,
  ◌<>◌, if◌then◌else◌,
}
use serving_agent.Config.{Config}
use serving_agent.Http.{HttpRequest, HttpResponse, Http, closing}
use serving_agent.Platform.{
  Json, null, json_of_map, GoMap, nil_map, InferRequest, InferResponse, DocsRequest, RequestError,
  new_request_error, Served, served, failure, panic, Format, JsonCodec, parse_into, internal_error,
  marshal_error, build_request_error, send_request_error, read_response_error,
  unmarshal_response_error, unknown_api_version, invalid_input_error,
}

pub record KServe : Type 0 where
  pub version : String
  pub address : String
  pub custom_domain : String
  pub namespace : String
  pub timeout : ℤ

-- `NewKServe`
abbrev pub new_kserve : Config → KServe
new_kserve config = record {
  version = config.kserve_version;
  address = config.kserve_address;
  custom_domain = config.kserve_custom_domain;
  namespace = config.kserve_namespace;
  timeout = config.kserve_request_timeout;
}

abbrev pub fail_with {ℓ} : {W : Type ℓ} {A : Type 0} → ℕ → String → Exec W (Served A)
fail_with code why = pure (failure (new_request_error code (plain why)))

-- The message in the body of an error response; what cannot be read or parsed is `nil`.
unfoldable pub error_message : JsonCodec → HttpResponse → Json
error_message codec res = elim res.body [
  | err _ ↦ null
  | ok bytes ↦ elim (codec.parse bytes) [ err _ ↦ null | ok value ↦ value ]
]

-- The number of attempts.
abbrev pub num_retries : ℕ
num_retries = 5

-- 502, 503 and 504 are retried.
abbrev pub is_transient : HttpResponse → Bool
is_transient res = leb 502 res.status_code && leb res.status_code 504

-- The request that every attempt builds anew.
abbrev pub request_to : KServe → String → String → String → Option String → HttpRequest
request_to service model_name method url body = record {
  method = method;
  url = url;
  body = body;
  host = model_name <> "." <> service.namespace <> "." <> service.custom_domain;
  headers = ("Content-Type", "application/json") ∷ [];
}

module _ {W : Type 0} (format : Format) (codec : JsonCodec) (http : Http W) (service : KServe) where
  module _ (model_name : String) (req : HttpRequest) (timeout : ℤ) where
    -- What follows the answer to attempt `i`; `again` is the next round of the loop.
    on_answer :
        ℕ → Exec W (Served HttpResponse) → Result HttpResponse → Exec W (Served HttpResponse)
    on_answer i again (err e) =
        if ltb i 4
        then (do http.sleep ((i + 1) * 2); again)
        else pure (
            failure (
              new_request_error send_request_error
                (wrap ("model-name: " <> model_name <> ", failed to send request: ") e)))
    on_answer i again (ok res) =
        if res.status_code == 200
        then pure (served res)
        else if is_transient res && ltb i 4
        then (do http.close res; http.sleep ((i + 1) * 2); again)
        else do
          http.close res
          fail_with invalid_input_error (
              "model-name: "
              <> model_name
              <> ", status-code: "
              <> itoa res.status_code
              <> ", error: "
              <> format.sprint (error_message codec res)
              <> ", retries: "
              <> itoa i)

    -- The loop of `sendRequest`, from attempt `i` with so many rounds left.
    attempt : ℕ → ℕ → Exec W (Served HttpResponse)
    attempt zero i = fail_with internal_error "shouldn't be here"
    attempt (suc rounds) i =
        if http.builds req.method req.url
        then (do answer ← http.perform timeout req; on_answer i (attempt rounds (i + 1)) answer)
        else fail_with build_request_error "failed to build request"

  pub send_request : String → String → String → Option String → ℤ → Exec W (Served HttpResponse)
  send_request model_name method url body timeout =
      attempt model_name (request_to service model_name method url body) timeout num_retries 0

  -- The end of `predictV1` and `Docs`, from the response.
  read_map : HttpResponse → Served InferResponse
  read_map res = elim res.body [
    | err _ ↦ failure (new_request_error read_response_error (plain "failed to read response body"))
    | ok bytes ↦ elim (parse_into codec nil_map bytes) [
      | err _ ↦
          failure
            (new_request_error unmarshal_response_error (plain "failed to unmarshal response body"))
      | ok outputs ↦ served (record { outputs = outputs })
    ]
  ]

  read_value : HttpResponse → Served Json
  read_value res = elim res.body [
    | err _ ↦ failure (new_request_error read_response_error (plain "failed to read response body"))
    | ok bytes ↦ elim (codec.parse bytes) [
      | err _ ↦
          failure
            (new_request_error unmarshal_response_error (plain "failed to unmarshal response body"))
      | ok value ↦ served value
    ]
  ]

  -- What follows `sendRequest`: the response's body is closed when the function returns.
  and_read : {A : Type 0} → (HttpResponse → Served A) → Served HttpResponse → Exec W (Served A)
  and_read read (panic m) = pure (panic m)
  and_read read (failure e) = pure (failure e)
  and_read read (served res) = closing http res (pure (read res))

  -- The rest of `predictV1`, from the marshalled inputs.
  send_inputs : InferRequest → Result String → Exec W (Served InferResponse)
  send_inputs req (err _) = fail_with marshal_error "failed to marshal request"
  send_inputs req (ok bytes) = do
    res ←
        send_request req.model_name "POST"
          ("http://" <> service.address <> "/v1/models/" <> req.model_name <> ":predict")
          (some bytes) (of_seconds service.timeout)
    and_read read_map res

  predict_v1 : InferRequest → Exec W (Served InferResponse)
  predict_v1 req = send_inputs req (codec.write (json_of_map req.inputs))

  -- `Predict`
  pub predict : InferRequest → String → Exec W (Served InferResponse)
  predict req version =
      if str_eq version "v1"
      then predict_v1 req
      else fail_with unknown_api_version "prediction API version is not supported"

  -- `Docs`
  pub docs : DocsRequest → Exec W (Served Json)
  docs req = do
    res ←
        send_request req.model_name "GET"
          ("http://" <> service.address <> "/v1/docs/" <> req.model_name) none (of_seconds (pos 10))
    and_read read_value res
