-- ===== src/Platform/KServe/Streaming/Forwarding.antt =====
-- What a client gets of a streamed generation, over any network and any client.
use serving_agent.Common.{
  of_seconds, String, Bool, true, false, ◌≡◌, refl, ap, ℤ, List, [], ◌∷◌, Result, ok, err,
  Bool-cases, inl, inr, ◌==◌, arith, str_eq,
}
use serving_agent.Http.{HttpRequest, HttpResponse, Http}
use serving_agent.Platform.{InferRequest, Served, served, JsonCodec}
use serving_agent.Platform.KServe.{KServe}
use serving_agent.Platform.KServe.Streaming.{
  StreamingMessage, Stream, ended, broken, next, StreamClient, unless_gone, after_encode,
  forward_next, forward, stream_body, stream_answer, send_streaming_request, stream_inputs,
  generate,
}
use serving_agent.Platform.KServe.Streaming.Record.{
  StreamCall, sent, closed, looked, encoded, flushed, StreamWorld, fresh, recorded_http,
  recorded_client,
}

abbrev pub messages : Stream → List StreamingMessage
messages ended = []
messages (broken e) = []
messages (next m stream) = m ∷ messages stream

abbrev pub IsEnded : Stream → Type 0
IsEnded ended = Unit
IsEnded (broken e) = ⊥
IsEnded (next m stream) = IsEnded stream

-- The log of a stream that was forwarded as a whole: before each message and before the end the
-- client was there, and each message was encoded and flushed.
abbrev pub trail : Stream → List StreamCall → List StreamCall
trail (next m stream) log = trail stream (flushed ∷ encoded m (ok tt) ∷ looked false ∷ log)
trail _ log = looked false ∷ log

-- A response with status 200 whose stream ended was forwarded as a whole, and then closed.
abbrev pub Complete : (HttpResponse → Stream) → List StreamCall → Type 0
Complete stream_of log =
    (req : HttpRequest) × (res : HttpResponse) × (res.status_code ≡ 200)
    × IsEnded (stream_of res)
    × (log ≡ closed res ∷ trail (stream_of res) (sent req (ok res) ∷ []))

module _ {E : Type 0} (codec : JsonCodec) (http : Http E) (stream_of : HttpResponse → Stream)
    (client : StreamClient E) (service : KServe) where
  abbrev Run : Type 0
  Run = StreamWorld E → Served (Unit {0}) × StreamWorld E

  abbrev pub run_generate : InferRequest → String → E → Served (Unit {0}) × StreamWorld E
  run_generate req version e =
      generate codec (recorded_http http) stream_of (recorded_client client) service req version
        (fresh e)

  module _ (name : String) where
    abbrev run_forward : Stream → Run
    run_forward = forward codec (recorded_http http) stream_of (recorded_client client) service name

    -- A run that succeeds has forwarded the whole stream.
    abbrev IsWhole : Stream → List StreamCall → Served (Unit {0}) × StreamWorld E → Type 0
    IsWhole stream log (r, w) = r ≡ served tt → IsEnded stream × (w.log ≡ trail stream log)

    after_encode-IsWhole :
        (m : StreamingMessage) (stream : Stream) (again : Run) (written : Result (Unit {0})) (e : E)
        (log : List StreamCall)
        → ((w : StreamWorld E) → IsWhole stream w.log (again w))
        → IsWhole (next m stream) log (
            after_encode codec
              (recorded_http http)
              stream_of
              (recorded_client client)
              service
              name
              again
              written
              (record { env = e; log = encoded m written ∷ looked false ∷ log }))
    unfolding after_encode
    after_encode-IsWhole m stream again (err x) e log whole = λ h. cc
    after_encode-IsWhole m stream again (ok _) e log whole = whole _

    unless_gone-IsWhole :
        (stream : Stream) (gone : Bool) (rest : Run) (e : E) (log : List StreamCall)
        → ((w : StreamWorld E) → w.log ≡ looked false ∷ log → IsWhole stream log (rest w))
        → IsWhole stream log (
            unless_gone codec
              (recorded_http http)
              stream_of
              (recorded_client client)
              service
              name
              gone
              rest
              (record { env = e; log = looked gone ∷ log }))
    unfolding unless_gone
    unless_gone-IsWhole stream true rest e log whole = λ h. cc
    unless_gone-IsWhole stream false rest e log whole = whole _ refl

    forward-IsWhole :
        (stream : Stream) (w : StreamWorld E) → IsWhole stream w.log (run_forward stream w)
    unfolding forward forward_next
    forward-IsWhole ended w = unless_gone-IsWhole ended _ _ _ w.log (λ w' same h. (tt, same))
    forward-IsWhole (broken x) w = unless_gone-IsWhole (broken x) _ _ _ w.log (λ w' same h. cc)
    forward-IsWhole (next m stream) w =
        unless_gone-IsWhole (next m stream) _ _ _ w.log
          λ w' same. rw same (after_encode-IsWhole m stream _ _ _ w.log (forward-IsWhole stream))

    abbrev IsComplete : Served (Unit {0}) × StreamWorld E → Type 0
    IsComplete (r, w) = r ≡ served tt → Complete stream_of w.log

    stream_answer-IsComplete :
        (req : HttpRequest) (answer : Result HttpResponse) (e : E)
        → IsComplete (
            stream_answer codec
              (recorded_http http)
              stream_of
              (recorded_client client)
              service
              name
              answer
              (record { env = e; log = sent req answer ∷ [] }))
    unfolding stream_answer stream_body
    stream_answer-IsComplete req (err x) e = λ h. cc
    stream_answer-IsComplete req (ok res) e = elim (Bool-cases (res.status_code == 200)) [
      | inl good ↦ rw good (λ h.
          let (ends, same) =
            forward-IsWhole (stream_of res) (record { env = e; log = sent req (ok res) ∷ [] }) h in
          (req, res, ground (arith, good), ends, ap (λ log. closed res ∷ log) same))
      | inr bad ↦ rw bad (λ h. cc)
    ]

    send-IsComplete :
        (req : HttpRequest) (timeout : ℤ) (e : E)
        → IsComplete (
            send_streaming_request codec
              (recorded_http http)
              stream_of
              (recorded_client client)
              service
              name
              req
              timeout
              (fresh e))
    unfolding send_streaming_request
    send-IsComplete req timeout e = elim (Bool-cases (http.builds req.method req.url)) [
      | inl valid ↦ rw valid (stream_answer-IsComplete req _ _)
      | inr invalid ↦ rw invalid (λ h. cc)
    ]

  inputs-IsComplete :
      (req : InferRequest) (bytes : Result String) (e : E)
      → IsComplete req.model_name (
          stream_inputs codec
            (recorded_http http)
            stream_of
            (recorded_client client)
            service
            req
            bytes
            (fresh e))
  unfolding stream_inputs
  inputs-IsComplete req (err x) e = λ h. cc
  inputs-IsComplete req (ok bytes) e =
      send-IsComplete req.model_name _ (of_seconds service.timeout) e

  -- If streaming a generation from KServe returns no error, then a request was answered with
  -- status 200, its stream of messages ended without an error, and the calls are exactly these:
  -- before every message and before the end the client was still there, every message was encoded
  -- and flushed, in the order of the stream, and the response was closed.
  pub stream-Complete :
      (req : InferRequest) (version : String) (e : E)
      → (run_generate req version e).0 ≡ served tt
      → Complete stream_of (run_generate req version e).1.log
  unfolding generate
  stream-Complete req version e = elim (Bool-cases (str_eq version "v1")) [
    | inl known ↦ rw known (inputs-IsComplete req _ e)
    | inr unknown ↦ rw unknown (λ h. cc)
  ]
