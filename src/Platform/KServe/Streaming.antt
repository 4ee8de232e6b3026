-- ===== src/Platform/KServe/Streaming.antt =====
-- platform/kserve.go: `Generate`, which forwards the messages of a model as they arrive.
pub mod Record
pub mod Forwarding
pub mod Order
use serving_agent.Common.{
  of_seconds, String, Bool, true, false, some, ℤ, Exec, pure, ◌>>=◌, ◌>>◌, plain, wrap, GoError,
  Result, ok, err, ◌==◌, str_eq, str_leb, itoa, ◌<>◌, if◌then◌else◌,
}
use serving_agent.Http.{HttpRequest, HttpResponse, Http, closing}
use serving_agent.Platform.{
  json_of_map, InferRequest, new_request_error, Served, served, failure, JsonCodec, marshal_error,
  build_request_error, send_request_error, unknown_api_version, invalid_input_error,
}
use serving_agent.Platform.KServe.{KServe, request_to, fail_with}

-- `StreamingMessage` of platform/base.go; `content` is its field `Data`.
pub record StreamingMessage : Type 0 where
  pub id : ℤ
  pub content : String

-- What the calls of `decoder.Decode` on one body return, in order: messages, and then `io.EOF` or
-- another error.
pub data Stream : Type 0 where
  ended : Stream
  broken : GoError → Stream
  next : StreamingMessage → Stream → Stream

-- The client at the other end: whether `ctx.Done()` is ready, `encoder.Encode`, `flusher.Flush`.
pub record StreamClient (W : Type 0) : Type 0 where
  pub is_gone : Exec W Bool
  pub encode : StreamingMessage → Exec W (Result (Unit {0}))
  pub flush : Exec W (Unit {0})

module _ {W : Type 0} (codec : JsonCodec) (http : Http W) (stream_of : HttpResponse → Stream)
    (client : StreamClient W) (service : KServe) where
  module _ (model_name : String) where
    unless_gone : Bool → Exec W (Served (Unit {0})) → Exec W (Served (Unit {0}))
    unless_gone true rest =
        fail_with send_request_error ("model-name: " <> model_name <> ", client stopped listening")
    unless_gone false rest = rest

    -- What follows `encoder.Encode`; `again` is the next round of the loop.
    after_encode : Exec W (Served (Unit {0})) → Result (Unit {0}) → Exec W (Served (Unit {0}))
    after_encode again (err e) = pure (
        failure (
          new_request_error send_request_error
            (wrap ("model-name: " <> model_name <> ", failed to encode request: ") e)))
    after_encode again (ok _) = do client.flush; again

    -- What follows the default case of `select`.
    forward_next : Exec W (Served (Unit {0})) → StreamingMessage → Exec W (Served (Unit {0}))
    forward_next again m = do written ← client.encode m; after_encode again written

    -- The loop of `sendStreamingRequest`.
    forward : Stream → Exec W (Served (Unit {0}))
    forward ended = do gone ← client.is_gone; unless_gone gone (pure (served tt))
    forward (broken e) = do
      gone ← client.is_gone
      unless_gone gone (
          pure (
            failure (
              new_request_error send_request_error
                (wrap ("model-name: " <> model_name <> ", failed to decode request: ") e))))
    forward (next m stream) = do
      gone ← client.is_gone
      unless_gone gone (forward_next (forward stream) m)

    stream_body : HttpResponse → Exec W (Served (Unit {0}))
    stream_body res =
        if res.status_code == 200
        then forward (stream_of res)
        else fail_with invalid_input_error
            ("model-name: " <> model_name <> ", status-code: " <> itoa res.status_code)

    stream_answer : Result HttpResponse → Exec W (Served (Unit {0}))
    stream_answer (err e) = pure (
        failure (
          new_request_error send_request_error
            (wrap ("model-name: " <> model_name <> ", failed to send request: ") e)))
    stream_answer (ok res) = closing http res (stream_body res)

    -- `sendStreamingRequest`
    send_streaming_request : HttpRequest → ℤ → Exec W (Served (Unit {0}))
    send_streaming_request req timeout =
        if http.builds req.method req.url
        then (do answer ← http.perform timeout req; stream_answer answer)
        else fail_with build_request_error "failed to build request"

  -- Versions are compared as texts.
  abbrev method_name : String
  method_name = if str_leb service.version "0.10.2" then ":generate" else ":predict"

  -- The rest of `generateV1`, from the marshalled inputs.
  stream_inputs : InferRequest → Result String → Exec W (Served (Unit {0}))
  stream_inputs req (err _) = fail_with marshal_error "failed to marshal request"
  stream_inputs req (ok bytes) =
      send_streaming_request req.model_name
        (request_to service req.model_name "POST"
          ("http://" <> service.address <> "/v1/models/" <> req.model_name <> method_name)
          (some bytes))
        (of_seconds service.timeout)

  -- `Generate`
  unfoldable pub generate : InferRequest → String → Exec W (Served (Unit {0}))
  unfolding stream_inputs send_streaming_request stream_answer stream_body forward forward_next
      after_encode unless_gone
  generate req version =
      if str_eq version "v1"
      then stream_inputs req (codec.write (json_of_map req.inputs))
      else fail_with unknown_api_version "generation API version is not supported"
