-- ===== src/Platform/Fetcher.antt =====
-- platform/webhook.go: `WebhookFetcher`, which tries a request several times by retry-go.
pub mod Attempts
use serving_agent.Common.{
  String, ℕ, zero, suc, Option, ℤ, Exec, ◌>>=◌, Result, ok, err, ◌≡◌, GoError,
}
use serving_agent.Http.{HttpRequest, HttpResponse, Http, Fetcher}

-- `retry.Do`, by the number of attempts and the delay in seconds. The function that is tried assigns
-- the response to a variable of its caller, so the value of the last attempt is the value here. `pause`
-- is the wait between two attempts, which retry-go lengthens and varies.
pub record Retry (W : Type 0) : Type 0 where
  pub do_with : ℕ → ℕ → Exec W (Result HttpResponse) → Exec W (Result HttpResponse)
  pub pause : W → W

-- What is documented of it: the function is tried until it returns no error, and at most so many
-- times, with a wait between two attempts; the error of the last attempt becomes an error.
pub data IsRetried {W : Type 0} (pause : W → W) (f : Exec W (Result HttpResponse))
    : ℕ → W → Result HttpResponse × W → Type 0 where
  succeeds :
      {n : ℕ} {w w' : W} {res : HttpResponse}
      → f w ≡ (ok res, w')
      → IsRetried pause f (suc n) w (ok res, w')
  gives_up :
      {w w' : W} {x y : GoError} → f w ≡ (err x, w') → IsRetried pause f (suc zero) w (err y, w')
  again :
      {n : ℕ} {w w' : W} {x : GoError} {end : Result HttpResponse × W}
      → f w ≡ (err x, w')
      → IsRetried pause f (suc n) (pause w') end
      → IsRetried pause f (suc (suc n)) w end

abbrev pub Retries : {W : Type 0} → Retry W → Type 0
Retries {W} retry =
    (n delay : ℕ) (f : Exec W (Result HttpResponse)) (w : W)
    → IsRetried retry.pause f (suc n) w (retry.do_with (suc n) delay f w)

-- Every attempt sends the one request, whose body is a reader: `remaining` is what has not been read
-- of it when the attempt begins. Go's client does not rewind it, so an attempt after one that has
-- read the body goes without.
module _ {W : Type 0} (http : Http W) (retry : Retry W)
    (remaining : HttpRequest → Exec W (Option String)) where
  pub send_once : HttpRequest → ℤ → Exec W (Result HttpResponse)
  send_once req timeout = do left ← remaining req; http.perform timeout (record req { body = left })

  -- `SendRequest`
  pub send_request : HttpRequest → ℤ → ℕ → Exec W (Result HttpResponse)
  send_request req timeout retries = retry.do_with retries 2 (send_once req timeout)

  abbrev pub webhook_fetcher : Fetcher W
  webhook_fetcher = record { send_request = send_request }
