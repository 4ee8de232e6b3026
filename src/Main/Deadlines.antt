-- ===== src/Main/Deadlines.antt =====
-- The durations that come of settings which pass `PreCheck`.
use serving_agent.Common.{
  arith, ℤ, pos, ◌≤ℤ◌, ◌≡◌, refl, none, of_seconds, of_seconds_mono, max_seconds, List, [], ◌∷◌,
  All,
}
use serving_agent.Config.{Config}
use serving_agent.Platform.KServe.{new_kserve}
use serving_agent.Platform.Replicate.{new_replicate}
use serving_agent.Platform.RunPod.{new_runpod}
use serving_agent.Platform.K8s.{new_k8s_plugin}
use serving_agent.Worker.{Runtime}
use serving_agent.Worker.Processor.{new_redis_task_processor}
use serving_agent.Api.{Server}
use serving_agent.Api.Queue.{ReplyCodec, task_options}
use serving_agent.Main.{pre_check}
use serving_agent.Main.Settings.{pre_check-AreSound}

-- The timeouts, in seconds, of requests to the four platforms.
abbrev pub request_timeouts : Config → List ℤ
request_timeouts config =
    (new_kserve config).timeout
    ∷ (new_k8s_plugin config).timeout
    ∷ (new_replicate config).timeout
    ∷ (new_runpod config).timeout
    ∷ []

-- 64 bits hold the timeouts in nanoseconds, and each request has one: `http.Client` takes a timeout
-- of zero or below for none, and asynq for its default.
abbrev pub AreHeld : Config → Type 0
AreHeld config =
    (config.task_timeout ≤ℤ pos max_seconds) × All (λ t. pos 1 ≤ℤ t) (request_timeouts config)

-- Every request has at least a second, and none has longer than a task.
abbrev pub AreTimely : ℤ → List ℤ → Type 0
AreTimely limit timeouts =
    All (λ t. (pos 1000000000 ≤ℤ of_seconds t) × (of_seconds t ≤ℤ limit)) timeouts

within_one :
    (limit t : ℤ)
    → limit ≤ℤ pos max_seconds
    → t ≤ℤ limit
    → pos 1 ≤ℤ t
    → (pos 1000000000 ≤ℤ of_seconds t) × (of_seconds t ≤ℤ of_seconds limit)
unfolding of_seconds
within_one limit t held below set = (
  of_seconds_mono (pos 1) t set (omega arith) (omega (arith, held, below)),
  of_seconds_mono t limit below (omega (arith, set)) held,
)

within :
    (limit : ℤ) (timeouts : List ℤ)
    → limit ≤ℤ pos max_seconds
    → All (λ t. t ≤ℤ limit) timeouts
    → All (λ t. pos 1 ≤ℤ t) timeouts
    → AreTimely (of_seconds limit) timeouts
within limit [] held below set = tt
within limit (t ∷ ts) held below set =
    (within_one limit t held below.0 set.0, within limit ts held below.1 set.1)

module _ {E : Type 0} (codec : ReplyCodec) (runtime : Runtime E) (server : Server E) where
  -- If the settings pass the check, the request timeouts of the four platforms are positive, and
  -- 64 bits hold the timeout of a task in nanoseconds, then the duration that a request to each
  -- platform may take is at least a second and at most the timeout of a task in the queue, and
  -- the latter is the time that the processor has for its shutdown.
  pub pre_check-AreTimely :
      pre_check server.config ≡ none
      → AreHeld server.config
      → let limit = (task_options codec runtime server).timeout in
        AreTimely limit (request_timeouts server.config)
        × ((new_redis_task_processor server.config).server.shutdown_timeout ≡ limit)
  unfolding task_options new_redis_task_processor
  pre_check-AreTimely passed (held, set) =
      let (_, kserve, k8s, replicate, runpod) = (pre_check-AreSound server.config).0 passed in
      (
        within server.config.task_timeout (request_timeouts server.config) held
            (kserve, (k8s, (replicate, (runpod, tt)))) set,
        refl,
      )
