-- ===== src/Platform/K8s/Requests.antt =====
-- A call of the Kubernetes platform: one request, closed, and an answer only from status 200.
use serving_agent.Common.{
  of_seconds, String, ◌≡◌, ◌≢◌, refl, List, [], ◌∷◌, ℤ, pos, Result, ok, err, Bool-cases, inl, inr,
  ◌==◌, str_eq, arith,
}
use serving_agent.Http.{HttpRequest, HttpResponse, Http}
use serving_agent.Http.Record.{HttpCall, sent, closed, HttpWorld, fresh, recorded_http}
use serving_agent.Platform.{
  Json, GoMap, nil_map, InferRequest, DocsRequest, RequestError, Served, served, failure, panic,
  Format, JsonCodec, parse_into, send_request_error, invalid_input_error,
}
use serving_agent.Platform.K8s.{
  K8sPlugin, check_answer, send_request, response_of, value_of, read_with, and_parse, ask,
  predict_v1, predict, docs, json_of_infer_request, json_of_docs_request,
}

-- The result and the calls of one exchange. Nothing is asked of the network unless there is a
-- request; a request that fails is an error in sending; a response is closed, and if its status is
-- not 200 it is an invalid input, so that a result comes from a status 200.
abbrev pub IsExchange : {A : Type 0} → Served A → List HttpCall → Type 0
IsExchange (failure f) [] = Unit
IsExchange (failure f) (sent _ (err _) ∷ []) = f.status_code ≡ send_request_error
IsExchange (failure f) (closed res ∷ sent _ (ok r) ∷ []) =
    (res ≡ r) × (res.status_code ≢ 200 → f.status_code ≡ invalid_input_error)
IsExchange (served a) (closed res ∷ sent _ (ok r) ∷ []) = (res ≡ r) × (res.status_code ≡ 200)
IsExchange _ _ = ⊥

-- The same, before the body of a response with status 200 is read.
abbrev IsSent : Served HttpResponse → List HttpCall → Type 0
IsSent (failure f) [] = Unit
IsSent (failure f) (sent _ (err _) ∷ []) = f.status_code ≡ send_request_error
IsSent (failure f) (closed res ∷ sent _ (ok r) ∷ []) =
    (res ≡ r) × (f.status_code ≡ invalid_input_error)
IsSent (served res) (sent _ (ok r) ∷ []) = (res ≡ r) × (res.status_code ≡ 200)
IsSent _ _ = ⊥

-- The call came back without a panic.
abbrev IsReturned : {A : Type 0} → Served A → Type 0
IsReturned (panic m) = ⊥
IsReturned _ = Unit

IsSent-IsExchange :
    (A : Type 0) (f : RequestError) (log : List HttpCall)
    → IsSent (failure f) log
    → IsExchange {A = A} (failure f) log
IsSent-IsExchange A f [] h = tt
IsSent-IsExchange A f (sent _ (err _) ∷ []) h = h
IsSent-IsExchange A f (closed res ∷ sent _ (ok r) ∷ []) h = (h.0, λ _. h.1)
IsSent-IsExchange A f _ h = absurd h

answered-IsExchange :
    {A : Type 0} (a : Served A) (res : HttpResponse) (log : List HttpCall)
    → IsReturned a
    → IsSent (served res) log
    → IsExchange a (closed res ∷ log)
answered-IsExchange (served a) res (sent _ (ok r) ∷ []) back h = h
answered-IsExchange (failure f) res (sent _ (ok r) ∷ []) back h = (h.0, λ other. absurd (other h.1))
answered-IsExchange (panic m) res log back h = absurd back
answered-IsExchange _ res _ back h = absurd h

module _ {E : Type 0} (format : Format) (codec : JsonCodec) (http : Http E)
    (service : K8sPlugin) where
  check_answer-IsSent :
      (url : String) (req : HttpRequest) (answer : Result HttpResponse) (e : E)
      → let (r, w) =
          check_answer format codec
            (recorded_http http)
            service
            url
            answer
            (record { env = e; log = sent req answer ∷ [] }) in
        IsSent r w.log
  unfolding check_answer
  check_answer-IsSent url req (err x) e = refl
  check_answer-IsSent url req (ok res) e = elim (Bool-cases (res.status_code == 200)) [
    | inl good ↦ rw good (refl, ground (arith, good))
    | inr bad ↦ rw bad (refl, refl)
  ]

  send-IsSent :
      (method url bytes : String) (timeout : ℤ) (e : E)
      → let (r, w) =
          send_request format codec
            (recorded_http http)
            service
            method
            url
            bytes
            timeout
            (fresh e) in
        IsSent r w.log
  unfolding send_request
  send-IsSent method url bytes timeout e = elim (Bool-cases (http.builds method url)) [
    | inl valid ↦ rw valid (check_answer-IsSent url _ _ _)
    | inr invalid ↦ rw invalid tt
  ]

  module _ {A : Type 0} (parse : String → Served A)
      (back : (bytes : String) → IsReturned (parse bytes)) where
    read_with-IsReturned :
        (body : Result String)
        → IsReturned (read_with format codec (recorded_http http) service parse body)
    unfolding read_with
    read_with-IsReturned (err x) = tt
    read_with-IsReturned (ok bytes) = back bytes

    and_parse-IsExchange :
        (r : Served HttpResponse) (w : HttpWorld E)
        → IsSent r w.log
        → let (a, w') = and_parse format codec (recorded_http http) service parse r w in
          IsExchange a w'.log
    unfolding and_parse
    and_parse-IsExchange (panic m) w h = absurd h
    and_parse-IsExchange (failure f) w h = IsSent-IsExchange A f w.log h
    and_parse-IsExchange (served res) w h =
        answered-IsExchange _ res w.log (read_with-IsReturned res.body) h

    ask-IsExchange :
        (method url : String) (timeout : ℤ) (bytes : Result String) (e : E)
        → let (a, w) =
            ask format codec
              (recorded_http http)
              service
              method
              url
              timeout
              parse
              bytes
              (fresh e) in
          IsExchange a w.log
    unfolding ask
    ask-IsExchange method url timeout (err x) e = tt
    ask-IsExchange method url timeout (ok bytes) e =
        and_parse-IsExchange _ _ (send-IsSent method url bytes timeout e)

  response_of-IsReturned :
      (outputs : Result GoMap)
      → IsReturned (response_of format codec (recorded_http http) service outputs)
  unfolding response_of
  response_of-IsReturned (err x) = tt
  response_of-IsReturned (ok outputs) = tt

  value_of-IsReturned :
      (value : Result Json) → IsReturned (value_of format codec (recorded_http http) service value)
  unfolding value_of
  value_of-IsReturned (err x) = tt
  value_of-IsReturned (ok value) = tt

  -- A prediction on Kubernetes makes no call and fails; or sends one request, which fails, and is
  -- an error in sending; or closes the response as its last call, which is an invalid input if
  -- the status is not 200. A result is returned only for status 200, and it does not panic.
  pub k8s-predict-IsExchange :
      (req : InferRequest) (version : String) (e : E)
      → let (a, w) = predict format codec (recorded_http http) service req version (fresh e) in
        IsExchange a w.log
  unfolding predict predict_v1
  k8s-predict-IsExchange req version e = elim (Bool-cases (str_eq version "v1")) [
    | inl known ↦ rw known (
        ask-IsExchange
          (λ bytes.
            response_of format codec (recorded_http http) service (parse_into codec nil_map bytes))
          (λ bytes. response_of-IsReturned (parse_into codec nil_map bytes)) "POST" _
          (of_seconds service.timeout) (codec.write (json_of_infer_request req)) e)
    | inr unknown ↦ rw unknown tt
  ]

  -- Reading the documentation of a model on Kubernetes makes no call and fails; or sends one
  -- request, which fails, and is an error in sending; or closes the response as its last call,
  -- which is an invalid input if the status is not 200. A result is returned only for status 200,
  -- and it does not panic.
  pub k8s-docs-IsExchange :
      (req : DocsRequest) (e : E)
      → let (a, w) = docs format codec (recorded_http http) service req (fresh e) in
        IsExchange a w.log
  unfolding docs
  k8s-docs-IsExchange req e =
      ask-IsExchange
        (λ bytes. value_of format codec (recorded_http http) service (codec.parse bytes))
        (λ bytes. value_of-IsReturned (codec.parse bytes)) "GET" _ (of_seconds (pos 10))
        (codec.write (json_of_docs_request req)) e
