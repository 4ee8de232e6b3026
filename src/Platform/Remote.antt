-- ===== src/Platform/Remote.antt =====
-- What platform/replicate.go and platform/runpod.go have in common: an authorized request, and the
-- loop that asks for the status of a prediction until it has one.
pub mod Polls
pub mod Jobs
use serving_agent.Common.{
  ℕ, zero, suc, String, Option, none, List, [], ◌∷◌, ℤ, pos_part, Exec, pure, ◌>>=◌, ◌>>◌, plain,
  Result, ok, err, ltb, ◌<>◌, if◌then◌else◌,
}
use serving_agent.Http.{HttpRequest, HttpResponse, Http, closing}
use serving_agent.Platform.{
  GoMap, InferResponse, new_request_error, Served, served, failure, panic, Format, JsonCodec,
  parse_into, internal_error, build_request_error, send_request_error, read_response_error,
  unmarshal_response_error, invalid_input_error,
}
use serving_agent.Platform.KServe.{fail_with, error_message}

-- What a status means: the prediction is over, or the next question comes after some seconds.
pub data Verdict : Type 0 where
  finished : Served InferResponse → Verdict
  wait : ℕ → Verdict

-- `scheme` is the word in front of the key in the header `Authorization`.
abbrev pub authorized : String → String → String → String → Option String → HttpRequest
authorized scheme apikey method address body = record {
  method = method;
  url = address;
  body = body;
  host = "";
  headers = ("Content-Type", "application/json") ∷ ("Authorization", scheme <> " " <> apikey) ∷ [];
}

module _ {W : Type 0} (format : Format) (codec : JsonCodec) (http : Http W) where
  -- The end of `sendRequest`: a response with a status over 300 is closed and is an error.
  check_response : Result HttpResponse → Exec W (Served HttpResponse)
  check_response (err _) = fail_with send_request_error "failed to send request, model not ready"
  check_response (ok res) =
      if ltb 300 res.status_code
      then (do
        http.close res
        fail_with invalid_input_error
            ("invalid inputs: " <> format.sprint (error_message codec res)))
      else pure (served res)

  -- `sendRequest`
  pub send_authorized : HttpRequest → ℤ → Exec W (Served HttpResponse)
  send_authorized req timeout =
      if http.builds req.method req.url
      then (do answer ← http.perform timeout req; check_response answer)
      else fail_with build_request_error "failed to build request"

  module _ (judge : ℕ → GoMap → Verdict) (req : HttpRequest) (timeout : ℤ) where
    pub obey :
        (GoMap → Exec W (Served InferResponse)) → GoMap → Verdict → Exec W (Served InferResponse)
    obey again outputs (finished result) = pure result
    obey again outputs (wait seconds) = do http.sleep seconds; again outputs

    read_status :
        (GoMap → Exec W (Served InferResponse)) → ℕ → Result GoMap → Exec W (Served InferResponse)
    read_status again code (err _) =
        fail_with unmarshal_response_error "failed to unmarshal response body"
    read_status again code (ok outputs) = obey again outputs (judge code outputs)

    read_body :
        (GoMap → Exec W (Served InferResponse))
        → GoMap
        → ℕ
        → Result String
        → Exec W (Served InferResponse)
    read_body again outputs code (err _) =
        fail_with read_response_error "failed to read response body"
    read_body again outputs code (ok bytes) =
        read_status again code (parse_into codec outputs bytes)

    -- The rest of a round, from the answer. Its body stays open until the function returns.
    after_poll :
        (GoMap → Exec W (Served InferResponse))
        → GoMap
        → Served HttpResponse
        → Exec W (Served InferResponse)
    after_poll again outputs (panic m) = pure (panic m)
    after_poll again outputs (failure e) = pure (failure e)
    after_poll again outputs (served res) =
        closing http res (read_body again outputs res.status_code res.body)

    -- The loop, with so many rounds left; the outputs of a round are merged into the earlier ones.
    pub poll : ℕ → GoMap → Exec W (Served InferResponse)
    poll zero outputs = fail_with internal_error "predict timeout"
    poll (suc rounds) outputs = do
      answer ← send_authorized req timeout
      after_poll (poll rounds) outputs answer
