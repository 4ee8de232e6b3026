-- ===== src/Main/Settings.antt =====
-- What `PreCheck` guarantees to the rest of the program.
use serving_agent.Common.{String, ◌≡◌, ◌≢◌, ◌↔◌, none, some, arith, ok, pos, ◌≤ℤ◌}
use serving_agent.Config.{Config}
use serving_agent.Platform.{InferRequest}
use serving_agent.Worker.{Runtime, QueueInfo, queue_critical, queue_size}
use serving_agent.Api.{Server, status, with_upload_webhook}
use serving_agent.Api.Queue.{ReplyCodec}
use serving_agent.Api.Queue.Admission.{run_async, async_predict-429_iff}
use serving_agent.Main.{pre_check}

-- The queue has room for a task, and a task has the time of a request of any platform.
abbrev pub AreSound : Config → Type 0
AreSound config =
    (pos 1 ≤ℤ config.max_queue_size)
    × (config.kserve_request_timeout ≤ℤ config.task_timeout)
    × (config.k8s_plugin_request_timeout ≤ℤ config.task_timeout)
    × (config.replicate_request_timeout ≤ℤ config.task_timeout)
    × (config.runpod_request_timeout ≤ℤ config.task_timeout)

-- The check of the settings passes if and only if the queue may hold at least one task and the
-- timeout of a task is at least the request timeout of each of the four platforms.
pub pre_check-AreSound : (config : Config) → (pre_check config ≡ none) ↔ AreSound config
pre_check-AreSound config = ground arith

-- Under settings that pass the check, a request that is bound and into which the upload address
-- can be put is not answered with 429 when the queue is known to be empty.
pub pre_check-empty_queue :
    {E : Type 0} (codec : ReplyCodec) (runtime : Runtime E) (server : Server E)
    (req req' : InferRequest) (uid : String) (e : E) (info : QueueInfo)
    → pre_check server.config ≡ none
    → with_upload_webhook server.config req ≡ some req'
    → (server.distributor.get_task_queue_info queue_critical (runtime.new_uuid e).1).0 ≡ ok info
    → queue_size info ≡ 0
    → status (run_async codec runtime server (ok req) uid e).0 ≢ 429
pre_check-empty_queue codec runtime server req req' uid e info passed bound known empty full =
    let (found, same, over) =
      (async_predict-429_iff codec runtime server req req' uid e bound).0 full in
    let sound = ((pre_check-AreSound server.config).0 passed).0 in
    grind (arith, same, over, known, empty, sound)
