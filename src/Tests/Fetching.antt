-- ===== src/Tests/Fetching.antt =====
-- Tests of the fetcher, and of the webhook client over it.
use serving_agent.Common.{
  Option, String, List, ℕ, zero, suc, ◌≡◌, refl, plain, ok, err, none, [], ◌∷◌, Exec, Result,
}
use serving_agent.Http.{HttpRequest, HttpResponse}
use serving_agent.Http.Record.{HttpCall, HttpWorld, fresh}
use serving_agent.Platform.{UpdateRequest, update_of}
use serving_agent.Platform.Fetcher.{Retry, Retries, IsRetried, succeeds, gives_up, again}
use serving_agent.Platform.InternalWebhook.{InternalWebhook, new_internal_webhook}
use serving_agent.Platform.InternalWebhook.Bounds.{IsBrief, whole_client, whole_client-IsBrief}
use serving_agent.Tests.Fixtures.{format, json_codec, http, answer, Answers, config, task_codec}

-- A retry that does not wait.
module _ {W : Type 0} (f : Exec W (Result HttpResponse)) where
  abbrev try_on : ℕ → Result HttpResponse × W → Result HttpResponse × W
  try_on n (ok res, w) = (ok res, w)
  try_on zero (err x, w) = (err x, w)
  try_on (suc n) (err x, w) = try_on n (f w)

  try_on-IsRetried :
      (n : ℕ) (w : W) (p : Result HttpResponse × W)
      → f w ≡ p
      → IsRetried (λ v. v) f (suc n) w (try_on n p)
  try_on-IsRetried n w (ok res, w') h = succeeds h
  try_on-IsRetried zero w (err x, w') h = gives_up h
  try_on-IsRetried (suc n) w (err x, w') h = again h (try_on-IsRetried n w' (f w') refl)

abbrev attempts : {W : Type 0} → ℕ → Exec W (Result HttpResponse) → Exec W (Result HttpResponse)
attempts zero f w = (err (plain "no attempts"), w)
attempts (suc n) f w = try_on f n (f w)

abbrev impatient : Retry (HttpWorld Answers)
impatient = record { do_with = λ n delay f. attempts n f; pause = λ w. w }

impatient-Retries : Retries impatient
impatient-Retries n delay f w = try_on-IsRetried f n w (f w) refl

-- A refused connection, and then an answer.
abbrev bumpy : Answers
bumpy = err (plain "connection refused") ∷ answer 200 ∷ []

-- The first attempt reads the whole body.
abbrev left : List HttpCall → HttpRequest → Option String
left [] req = req.body
left (c ∷ log) req = none

abbrev remaining : HttpRequest → Exec (HttpWorld Answers) (Option String)
remaining req w = (left w.log req, w)

abbrev internal : InternalWebhook
internal = new_internal_webhook config

abbrev failed : UpdateRequest
failed = record (update_of "t1") { status = "failed" }

whole_client-IsBrief_example :
    IsBrief
      ((whole_client format json_codec task_codec http impatient remaining
          internal).update_task_info
        failed
        (fresh bumpy)).1.log
whole_client-IsBrief_example =
    (whole_client-IsBrief format json_codec task_codec http impatient remaining internal
        impatient-Retries (λ w. refl) (λ req w. refl) bumpy).1
      failed
