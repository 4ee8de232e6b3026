-- ===== src/Http.antt =====
-- Go's `net/http` as the source uses it: the parts that it fills in of a request, reads of a
-- response, and calls of a client.
pub mod Record
use serving_agent.Common.{ℕ, String, Bool, List, Option, ℤ, Exec, pure, ◌>>=◌, ◌>>◌, Result}

pub record HttpRequest : Type 0 where
  pub method : String
  pub url : String
  pub body : Option String
  pub host : String
  pub headers : List (String × String)

-- `body` is what `io.ReadAll` returns of the response's body.
pub record HttpResponse : Type 0 where
  pub status_code : ℕ
  pub body : Result String

-- `builds` says whether `http.NewRequest` takes a method and an address, `perform` is `client.Do`
-- under a timeout, a duration in nanoseconds, `close` is `res.Body.Close`, and `sleep` takes seconds.
pub record Http (W : Type 0) : Type 0 where
  pub builds : String → String → Bool
  pub perform : ℤ → HttpRequest → Exec W (Result HttpResponse)
  pub close : HttpResponse → Exec W (Unit {0})
  pub sleep : ℕ → Exec W (Unit {0})

-- `defer res.Body.Close()` in front of the rest of a function.
abbrev pub closing {ℓ} : {W : Type 0} {A : Type ℓ} → Http W → HttpResponse → Exec W A → Exec W A
closing http res rest = do a ← rest; http.close res; pure a

-- The interface `Fetcher` of platform/base.go: a request, a timeout, and how often to try.
pub record Fetcher (W : Type 0) : Type 0 where
  pub send_request : HttpRequest → ℤ → ℕ → Exec W (Result HttpResponse)
