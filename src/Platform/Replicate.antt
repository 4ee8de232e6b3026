-- ===== src/Platform/Replicate.antt =====
-- platform/replicate.go
pub mod Requests
use serving_agent.Common.{
  of_seconds, ℕ, String, Option, none, some, ℤ, pos_part, Exec, pure, ◌>>=◌, plain, Result, ok, err,
  ltb, ◌==◌, str_eq, ◌<>◌, if◌then◌else◌,
}
use serving_agent.Config.{Config}
use serving_agent.Http.{HttpResponse, Http, closing}
use serving_agent.Platform.{
  Json, str, obj, field, end, GoMap, nil_map, made, get_key, delete_key, json_of_map, InferRequest,
  InferResponse, DocsRequest, new_request_error, Served, served, failure, panic, Format, JsonCodec,
  parse_into, internal_error, marshal_error, read_response_error, unmarshal_response_error,
  unknown_api_version,
}
use serving_agent.Platform.KServe.{fail_with}
use serving_agent.Platform.Remote.{Verdict, finished, wait, authorized, send_authorized, poll}
use serving_agent.Platform.RunPod.{value_or_nil, failed_with}

pub record Replicate : Type 0 where
  pub address : String
  pub apikey : String
  pub model_id : String
  pub timeout : ℤ

-- `NewReplicate`
abbrev pub new_replicate : Config → Replicate
new_replicate config = record {
  address = config.replicate_address;
  apikey = config.replicate_apikey;
  model_id = config.replicate_model_id;
  timeout = config.replicate_request_timeout;
}

module _ (format : Format) where
  -- The outputs of a prediction that has succeeded; the type assertion on the metrics may fail.
  succeeded_with : Json → Option Json → Verdict
  succeeded_with output (some (obj metrics)) = finished (
      served (record {
        outputs = made (
            field "output" output (
              field "running_time"
                (str (format.fixed (value_or_nil (get_key "predict_time" (made metrics))) <> "s"))
                end));
      }))
  succeeded_with output _ = finished (panic "interface conversion: metrics is not a map")

  judge_status : GoMap → Option Json → Verdict
  judge_status outputs none = finished (
      failure
        (new_request_error read_response_error (plain "failed to read get prediction status")))
  judge_status outputs (some v) =
      let status = format.sprint v in
      if str_eq status "succeeded"
      then succeeded_with (value_or_nil (get_key "output" outputs)) (get_key "metrics" outputs)
      else if str_eq status "failed"
      then failed_with format outputs
      else wait 1

  -- A throttled question is asked again after two seconds.
  pub judge : ℕ → GoMap → Verdict
  judge code outputs =
      if ltb code 400
      then judge_status outputs (get_key "status" outputs)
      else if code == 429
      then wait 2
      else failed_with format outputs

module _ {W : Type 0} (format : Format) (codec : JsonCodec) (http : Http W)
    (service : Replicate) where
  -- `sendRequest`
  abbrev pub send_request : String → String → Option String → ℤ → Exec W (Served HttpResponse)
  send_request method address body timeout =
      send_authorized format codec http (authorized "Token" service.apikey method address body)
        timeout

  start_polling : GoMap → Option Json → Exec W (Served InferResponse)
  start_polling outputs none = fail_with read_response_error "failed to read webhook 'get' url"
  start_polling outputs (some url) =
      poll format codec http (judge format)
        (authorized "Token" service.apikey "GET" (format.sprint url) none)
        (of_seconds service.timeout) (pos_part service.timeout) outputs

  -- The type assertion on the URLs may fail.
  read_urls : GoMap → Option Json → Exec W (Served InferResponse)
  read_urls outputs none = fail_with read_response_error "failed to read webhook urls"
  read_urls outputs (some (obj urls)) = start_polling outputs (get_key "get" (made urls))
  read_urls outputs (some _) = pure (panic "interface conversion: urls is not a map")

  read_prediction : ℕ → Result GoMap → Exec W (Served InferResponse)
  read_prediction code (err _) =
      fail_with unmarshal_response_error "failed to unmarshal response body"
  read_prediction code (ok outputs) =
      if ltb code 300
      then read_urls outputs (get_key "urls" outputs)
      else fail_with internal_error ("predict failed: " <> format.sprint (json_of_map outputs))

  read_created : ℕ → Result String → Exec W (Served InferResponse)
  read_created code (err _) = fail_with read_response_error "failed to read response body"
  read_created code (ok bytes) = read_prediction code (parse_into codec nil_map bytes)

  created : Served HttpResponse → Exec W (Served InferResponse)
  created (panic m) = pure (panic m)
  created (failure e) = pure (failure e)
  created (served res) = closing http res (read_created res.status_code res.body)

  send_prediction : Result String → Exec W (Served InferResponse)
  send_prediction (err _) = fail_with marshal_error "failed to marshal request"
  send_prediction (ok bytes) = do
    answer ← send_request "POST" service.address (some bytes) (of_seconds service.timeout)
    created answer

  -- `Predict`; the version is ignored.
  pub predict : InferRequest → String → Exec W (Served InferResponse)
  predict req version = send_prediction (
      codec.write (
        obj (
          field "version" (str service.model_id)
            (field "input" (json_of_map (delete_key "upload_webhook" req.inputs)) end))))

  -- `Generate` and `Docs`
  pub generate : InferRequest → String → Exec W (Served (Unit {0}))
  generate req version =
      fail_with unknown_api_version "generation API for replicate is not supported"

  pub docs : DocsRequest → Exec W (Served Json)
  docs req = pure (served (str ""))
