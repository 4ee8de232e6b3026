-- ===== src/Worker/Processor.antt =====
-- worker/processor.go, and the head of worker/distributor.go: what the agent asks of asynq and Redis
-- when it starts. The server, the client and the inspector are asynq's.
pub mod Delivery
pub mod Attempts
use serving_agent.Common.{
  of_seconds, ℕ, String, Option, none, some, List, [], ◌∷◌, ℤ, Exec, Result, str_eq, ◌<>◌,
  if◌then◌else◌,
}
use serving_agent.Config.{Config}
use serving_agent.Platform.{Format, Platform, Webhook}
use serving_agent.Worker.{queue_critical, Metrics, PayloadCodec}
use serving_agent.Worker.Predict.{TaskResult, process_task_run_prediction}

-- `asynq.RedisConnOpt`, as the source fills it in.
pub data RedisConnOpt : Type 0 where
  cluster_client : List String → RedisConnOpt
  client : String → RedisConnOpt

-- `QueueDefault`
abbrev pub queue_default : String
queue_default = "default"

-- The fields of `asynq.Config` that the source sets, less the logger and the error handler, which
-- logs; the timeout is a duration. `queues` has the weights.
pub record AsynqConfig : Type 0 where
  pub concurrency : ℤ
  pub queues : List (String × ℕ)
  pub shutdown_timeout : ℤ

pub record RedisTaskProcessor : Type 0 where
  pub config : Config
  pub redis : RedisConnOpt
  pub server : AsynqConfig

-- `NewRedisTaskProcessor`, less the platform and the webhook, which `start` takes.
unfoldable pub new_redis_task_processor : Config → RedisTaskProcessor
new_redis_task_processor config = record {
  config = config;
  redis =
      if config.redis_cluster_mode
      then cluster_client (config.redis_address ∷ [])
      else client config.redis_address;
  server = record {
    concurrency = config.worker_concurrency;
    queues = (queue_critical, 10) ∷ (queue_default, 5) ∷ [];
    shutdown_timeout = of_seconds config.task_timeout;
  };
}

-- `NewRedisTaskDistributor`: the connection of its client and of its inspector, or nil.
unfoldable pub new_redis_task_distributor : Config → Option RedisConnOpt
new_redis_task_distributor config =
    if str_eq config.redis_address ""
    then none
    else if config.redis_cluster_mode
    then some (cluster_client (config.redis_address ∷ []))
    else some (client config.redis_address)

-- A handler for the tasks of one type, from the task's payload.
pub record TaskHandler (W : Type 0) : Type 0 where
  pub pattern : String
  pub process_task : String → Exec W TaskResult

module _ {W : Type 0} (format : Format) (codec : PayloadCodec) (webhook : Webhook W)
    (platform : Platform W) (metrics : Metrics W) where
  -- `Start`: the table that it hands to the server.
  unfoldable pub start : RedisTaskProcessor → List (TaskHandler W)
  start processor =
      record {
        pattern = "task:" <> processor.config.task_type_name;
        process_task = process_task_run_prediction format codec webhook platform metrics;
      }
      ∷ []
