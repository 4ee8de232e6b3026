-- ===== src/Platform/KServe/Streaming/Order.antt =====
-- Whatever happens to a streamed generation, the client gets the first messages of the stream.
use mathlib.Core.List.{reverse_aux}
use serving_agent.Common.{
  of_seconds, String, Bool, true, false, ◌≡◌, refl, List, [], ◌∷◌, ℤ, Result, ok, err, Bool-cases,
  inl, inr, ◌==◌, str_eq,
}
use serving_agent.Http.{HttpRequest, HttpResponse, Http}
use serving_agent.Platform.{InferRequest, Served, JsonCodec}
use serving_agent.Platform.KServe.{KServe}
use serving_agent.Platform.KServe.Streaming.{
  StreamingMessage, Stream, ended, broken, next, StreamClient, unless_gone, after_encode,
  forward_next, forward, stream_body, stream_answer, send_streaming_request, stream_inputs,
  generate,
}
use serving_agent.Platform.KServe.Streaming.Record.{
  StreamCall, sent, closed, encoded, StreamWorld, fresh, recorded_http, recorded_client,
}
use serving_agent.Platform.KServe.Streaming.Forwarding.{messages, run_generate}

-- The messages encoded, newest first.
abbrev pub encodings : List StreamCall → List StreamingMessage
encodings [] = []
encodings (encoded m _ ∷ log) = m ∷ encodings log
encodings (_ ∷ log) = encodings log

-- The messages `newest`, turned around, are the first ones of `all`.
abbrev pub IsStart : List StreamingMessage → List StreamingMessage → Type 0
IsStart newest all = (rest : List StreamingMessage) × (reverse_aux newest rest ≡ all)

-- The only request was the first call, it was answered by `res`, and nothing was closed since.
abbrev pub IsOpen : HttpResponse → List StreamCall → Type 0
IsOpen res [] = ⊥
IsOpen res (sent req (ok r) ∷ []) = r ≡ res
IsOpen res (sent _ _ ∷ _) = ⊥
IsOpen res (closed _ ∷ _) = ⊥
IsOpen res (_ ∷ log) = IsOpen res log

-- No call; or a request that failed; or a response that was closed last, once, and of whose stream
-- the first messages were encoded.
abbrev pub IsOrderly : (HttpResponse → Stream) → List StreamCall → Type 0
IsOrderly stream_of [] = Unit
IsOrderly stream_of (sent _ (err _) ∷ []) = Unit
IsOrderly stream_of (closed res ∷ log) =
    IsOpen res log × IsStart (encodings log) (messages (stream_of res))
IsOrderly stream_of _ = ⊥

module _ {E : Type 0} (codec : JsonCodec) (http : Http E) (stream_of : HttpResponse → Stream)
    (client : StreamClient E) (service : KServe) where
  abbrev Run : Type 0
  Run = StreamWorld E → Served (Unit {0}) × StreamWorld E

  module _ (name : String) (res : HttpResponse) where
    abbrev run_forward : Stream → Run
    run_forward = forward codec (recorded_http http) stream_of (recorded_client client) service name

    -- What a run does to the log, if `all` is what the log and the rest of the stream add up to.
    abbrev Keeps : List StreamingMessage → List StreamCall → List StreamCall → Type 0
    Keeps left old new =
        IsOpen res old → IsOpen res new × IsStart (encodings new) (reverse_aux (encodings old) left)

    after_encode-Keeps :
        (left : List StreamingMessage) (again : Run) (written : Result (Unit {0}))
        (w : StreamWorld E)
        → ((w' : StreamWorld E) → Keeps left w'.log (again w').1.log)
        → Keeps left w.log
            (after_encode codec
              (recorded_http http)
              stream_of
              (recorded_client client)
              service
              name
              again
              written
              w).1.log
    unfolding after_encode
    after_encode-Keeps left again (err x) w later = λ h. (h, (left, refl))
    after_encode-Keeps left again (ok _) w later = later _

    unless_gone-Keeps :
        (left : List StreamingMessage) (gone : Bool) (rest : Run) (w : StreamWorld E)
        → Keeps left w.log (rest w).1.log
        → Keeps left w.log
            (unless_gone codec
              (recorded_http http)
              stream_of
              (recorded_client client)
              service
              name
              gone
              rest
              w).1.log
    unfolding unless_gone
    unless_gone-Keeps left true rest w later = λ h. (h, (left, refl))
    unless_gone-Keeps left false rest w later = later

    forward-Keeps :
        (stream : Stream) (w : StreamWorld E)
        → Keeps (messages stream) w.log (run_forward stream w).1.log
    unfolding forward forward_next
    forward-Keeps ended w = unless_gone-Keeps [] _ _ _ (λ h. (h, ([], refl)))
    forward-Keeps (broken x) w = unless_gone-Keeps [] _ _ _ (λ h. (h, ([], refl)))
    forward-Keeps (next m stream) w =
        unless_gone-Keeps (m ∷ messages stream) _ _ _
          (after_encode-Keeps (messages stream) _ _ _ (forward-Keeps stream))

  module _ (name : String) where
    stream_answer-IsOrderly :
        (req : HttpRequest) (answer : Result HttpResponse) (e : E)
        → IsOrderly stream_of
            (stream_answer codec
              (recorded_http http)
              stream_of
              (recorded_client client)
              service
              name
              answer
              (record { env = e; log = sent req answer ∷ [] })).1.log
    unfolding stream_answer stream_body
    stream_answer-IsOrderly req (err x) e = tt
    stream_answer-IsOrderly req (ok res) e = elim (Bool-cases (res.status_code == 200)) [
      | inl good ↦ rw good (forward-Keeps name res (stream_of res) _ refl)
      | inr bad ↦ rw bad (refl, (messages (stream_of res), refl))
    ]

    send-IsOrderly :
        (req : HttpRequest) (timeout : ℤ) (e : E)
        → IsOrderly stream_of
            (send_streaming_request codec
              (recorded_http http)
              stream_of
              (recorded_client client)
              service
              name
              req
              timeout
              (fresh e)).1.log
    unfolding send_streaming_request
    send-IsOrderly req timeout e = elim (Bool-cases (http.builds req.method req.url)) [
      | inl valid ↦ rw valid (stream_answer-IsOrderly req _ _)
      | inr invalid ↦ rw invalid tt
    ]

  inputs-IsOrderly :
      (req : InferRequest) (bytes : Result String) (e : E)
      → IsOrderly stream_of
          (stream_inputs codec
            (recorded_http http)
            stream_of
            (recorded_client client)
            service
            req
            bytes
            (fresh e)).1.log
  unfolding stream_inputs
  inputs-IsOrderly req (err x) e = tt
  inputs-IsOrderly req (ok bytes) e = send-IsOrderly req.model_name _ (of_seconds service.timeout) e

  -- However streaming a generation from KServe ends, there was no call; or one request, which
  -- failed; or one request whose response was closed once, as the last call, and the messages
  -- handed to the encoder are the first ones of its stream, in their order.
  pub stream-IsOrderly :
      (req : InferRequest) (version : String) (e : E)
      → IsOrderly stream_of (run_generate codec http stream_of client service req version e).1.log
  unfolding generate
  stream-IsOrderly req version e = elim (Bool-cases (str_eq version "v1")) [
    | inl known ↦ rw known (inputs-IsOrderly req _ e)
    | inr unknown ↦ rw unknown tt
  ]
