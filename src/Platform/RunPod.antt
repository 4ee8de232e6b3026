-- ===== src/Platform/RunPod.antt =====
-- platform/runpod.go
pub mod Requests
use serving_agent.Common.{
  of_seconds, ℕ, String, Option, none, some, List, [], ◌∷◌, ℤ, pos_part, Exec, pure, ◌>>=◌, ◌>>◌,
  plain, Result, ok, err, ltb, str_eq, ◌<>◌, if◌then◌else◌,
}
use serving_agent.Config.{Config}
use serving_agent.Http.{HttpRequest, HttpResponse, Http, closing}
use serving_agent.Platform.{
  Json, null, num, str, obj, field, end, GoMap, nil_map, made, get_key, delete_key, json_of_map,
  InferRequest, InferResponse, DocsRequest, new_request_error, Served, served, failure, panic,
  Format, JsonCodec, parse_into, internal_error, marshal_error, read_response_error,
  unmarshal_response_error, unknown_api_version,
}
use serving_agent.Platform.KServe.{fail_with}
use serving_agent.Platform.Remote.{Verdict, finished, wait, authorized, send_authorized, poll}

pub record RunPod : Type 0 where
  pub address : String
  pub apikey : String
  pub model_id : String
  pub timeout : ℤ

-- `NewRunPod`
abbrev pub new_runpod : Config → RunPod
new_runpod config = record {
  address = config.runpod_address;
  apikey = config.runpod_apikey;
  model_id = config.runpod_model_id;
  timeout = config.runpod_request_timeout;
}

-- `m[k]` of a missing key is nil.
abbrev pub value_or_nil : Option Json → Json
value_or_nil none = null
value_or_nil (some v) = v

-- The float64 1000, by its bits.
abbrev thousand : ℕ
thousand = 0x408f400000000000

module _ (format : Format) where
  abbrev pub failed_with : GoMap → Verdict
  failed_with outputs = finished (
      failure (
        new_request_error internal_error
          (plain ("predict failed: " <> format.sprint (json_of_map outputs)))))

  -- The outputs of a prediction that is done; the type assertion on the time may fail.
  done_with : Json → Option Json → Verdict
  done_with output (some (num time)) = finished (
      served (record {
        outputs = made (
            field "output" output (
              field "running_time"
                (str (format.fixed (num (format.float_div time thousand)) <> "s")) end));
      }))
  done_with output _ = finished (panic "interface conversion: executionTime is not a float64")

  judge_status : GoMap → Option Json → Verdict
  judge_status outputs none = finished (
      failure
        (new_request_error read_response_error (plain "failed to read get prediction status")))
  judge_status outputs (some v) =
      let status = format.sprint v in
      if str_eq status "COMPLETED"
      then done_with (value_or_nil (get_key "output" outputs)) (get_key "executionTime" outputs)
      else if str_eq status "FAILED"
      then failed_with outputs
      else wait 1

  pub judge : ℕ → GoMap → Verdict
  judge code outputs =
      if ltb code 400 then judge_status outputs (get_key "status" outputs) else failed_with outputs

module _ {W : Type 0} (format : Format) (codec : JsonCodec) (http : Http W) (service : RunPod) where
  -- `sendRequest`
  abbrev pub send_request : String → String → Option String → ℤ → Exec W (Served HttpResponse)
  send_request method address body timeout =
      send_authorized format codec http (authorized "Bearer" service.apikey method address body)
        timeout

  start_polling : GoMap → Option Json → Exec W (Served InferResponse)
  start_polling outputs none = fail_with read_response_error "failed to read runpod job id"
  start_polling outputs (some id) =
      poll format codec http (judge format)
        (authorized "Bearer" service.apikey "GET"
          (service.address <> "/" <> service.model_id <> "/status/" <> format.sprint id) none)
        (of_seconds service.timeout) (pos_part service.timeout) outputs

  read_job : ℕ → Result GoMap → Exec W (Served InferResponse)
  read_job code (err _) = fail_with unmarshal_response_error "failed to unmarshal response body"
  read_job code (ok outputs) =
      if ltb code 300
      then start_polling outputs (get_key "id" outputs)
      else fail_with internal_error ("predict failed: " <> format.sprint (json_of_map outputs))

  read_created : ℕ → Result String → Exec W (Served InferResponse)
  read_created code (err _) = fail_with read_response_error "failed to read response body"
  read_created code (ok bytes) = read_job code (parse_into codec nil_map bytes)

  created : Served HttpResponse → Exec W (Served InferResponse)
  created (panic m) = pure (panic m)
  created (failure e) = pure (failure e)
  created (served res) = closing http res (read_created res.status_code res.body)

  send_job : Result String → Exec W (Served InferResponse)
  send_job (err _) = fail_with marshal_error "failed to marshal request"
  send_job (ok bytes) = do
    answer ←
        send_request "POST" (service.address <> "/" <> service.model_id <> "/run") (some bytes)
          (of_seconds service.timeout)
    created answer

  -- `Predict`; the version is ignored.
  pub predict : InferRequest → String → Exec W (Served InferResponse)
  predict req version =
      send_job (
        codec.write
          (obj (field "input" (json_of_map (delete_key "upload_webhook" req.inputs)) end)))

  -- `Generate` and `Docs`
  pub generate : InferRequest → String → Exec W (Served (Unit {0}))
  generate req version = fail_with unknown_api_version "generation API for RunPod is not supported"

  pub docs : DocsRequest → Exec W (Served Json)
  docs req = pure (served (str ""))
