-- ===== src/Platform/K8s.antt =====
-- platform/k8s.go: requests to a deployment on Kubernetes, without retries.
pub mod Requests
use serving_agent.Common.{
  of_seconds, String, Option, some, List, [], ◌∷◌, ℤ, pos, Exec, pure, ◌>>=◌, ◌>>◌, plain, Result,
  ok, err, ◌==◌, str_eq, itoa, ◌<>◌, if◌then◌else◌,
}
use serving_agent.Config.{Config}
use serving_agent.Http.{HttpRequest, HttpResponse, Http, closing}
use serving_agent.Platform.{
  Json, str, obj, field, end, json_of_map, GoMap, nil_map, InferRequest, InferResponse, DocsRequest,
  Served, served, failure, panic, Format, JsonCodec, parse_into, marshal_error, build_request_error,
  send_request_error, read_response_error, unmarshal_response_error, unknown_api_version,
  invalid_input_error,
}
use serving_agent.Platform.KServe.{fail_with, error_message}

pub record K8sPlugin : Type 0 where
  pub address : String
  pub timeout : ℤ

-- `NewK8sPlugin`
abbrev pub new_k8s_plugin : Config → K8sPlugin
new_k8s_plugin config = record {
  address = config.k8s_plugin_address;
  timeout = config.k8s_plugin_request_timeout;
}

-- A request as JSON, by the tags of its fields.
abbrev pub json_of_infer_request : InferRequest → Json
json_of_infer_request req =
    obj (field "model_name" (str req.model_name) (field "inputs" (json_of_map req.inputs) end))

abbrev pub json_of_docs_request : DocsRequest → Json
json_of_docs_request req = obj (field "model_name" (str req.model_name) end)

module _ {W : Type 0} (format : Format) (codec : JsonCodec) (http : Http W)
    (service : K8sPlugin) where
  -- The end of `sendRequest`: every status but 200 is an error.
  check_answer : String → Result HttpResponse → Exec W (Served HttpResponse)
  check_answer url (err _) =
      fail_with send_request_error ("url: " <> url <> ", failed to send request, model not ready")
  check_answer url (ok res) = if res.status_code == 200 then pure (served res) else (do
    http.close res
    fail_with invalid_input_error (
        "url: "
        <> url
        <> ", status-code: "
        <> itoa res.status_code
        <> ", invalid inputs: "
        <> format.sprint (error_message codec res)))

  abbrev request_at : String → String → String → HttpRequest
  request_at method url bytes = record {
    method = method;
    url = url;
    body = some bytes;
    host = "";
    headers = ("Content-Type", "application/json") ∷ [];
  }

  -- `sendRequest`
  send_request : String → String → String → ℤ → Exec W (Served HttpResponse)
  send_request method url bytes timeout =
      if http.builds method url
      then (do answer ← http.perform timeout (request_at method url bytes); check_answer url answer)
      else fail_with build_request_error "failed to build request"

  -- The outputs of `predictV1`, from the parsed body.
  response_of : Result GoMap → Served InferResponse
  response_of (err _) = failure (record {
    status_code = unmarshal_response_error;
    cause = plain "failed to unmarshal response body";
  })
  response_of (ok outputs) = served (record { outputs = outputs })

  value_of : Result Json → Served Json
  value_of (err _) = failure (record {
    status_code = unmarshal_response_error;
    cause = plain "failed to unmarshal response body";
  })
  value_of (ok value) = served value

  read_with : {A : Type 0} → (String → Served A) → Result String → Served A
  read_with parse (err _) =
      failure
        (record { status_code = read_response_error; cause = plain "failed to read response body" })
  read_with parse (ok bytes) = parse bytes

  -- The body is closed when the function returns.
  and_parse : {A : Type 0} → (String → Served A) → Served HttpResponse → Exec W (Served A)
  and_parse parse (panic m) = pure (panic m)
  and_parse parse (failure e) = pure (failure e)
  and_parse parse (served res) = closing http res (pure (read_with parse res.body))

  -- A request as a whole, from its marshalled body.
  ask : {A : Type 0} → String → String → ℤ → (String → Served A) → Result String → Exec W (Served A)
  ask method url timeout parse (err _) = fail_with marshal_error "failed to marshal request"
  ask method url timeout parse (ok bytes) = do
    answer ← send_request method url bytes timeout
    and_parse parse answer

  predict_v1 : InferRequest → Exec W (Served InferResponse)
  predict_v1 req =
      ask "POST" ("http://" <> service.address <> "/v1/predict") (of_seconds service.timeout)
        (λ bytes. response_of (parse_into codec nil_map bytes))
        (codec.write (json_of_infer_request req))

  -- `Predict`
  pub predict : InferRequest → String → Exec W (Served InferResponse)
  predict req version =
      if str_eq version "v1"
      then predict_v1 req
      else fail_with unknown_api_version "prediction API version is not supported"

  -- `Generate`
  pub generate : InferRequest → String → Exec W (Served (Unit {0}))
  generate req version = fail_with unknown_api_version "generation API for k8s is not supported"

  -- `Docs`
  pub docs : DocsRequest → Exec W (Served Json)
  docs req =
      ask "GET" ("http://" <> service.address <> "/v1/docs") (of_seconds (pos 10))
        (λ bytes. value_of (codec.parse bytes)) (codec.write (json_of_docs_request req))
