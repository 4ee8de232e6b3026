-- ===== src/Worker.antt =====
-- worker/: the task payload, the interface `TaskDistributor`, and what the worker takes from asynq,
-- the clock and the metrics registry.
pub mod Predict
pub mod Distributor
pub mod Processor
use serving_agent.Common.{ℕ, ◌+◌, String, List, ℤ, Exec, Result}
use serving_agent.Platform.{InferRequest}

-- worker/processor.go
abbrev pub queue_critical : String
queue_critical = "critical"

-- worker/predict.go; the embedded `InferRequest` is the field `request`.
pub record PayloadRunPrediction : Type 0 where
  pub request : InferRequest
  pub id : String
  pub api_version : String

-- The part of asynq's `TaskInfo` that the source reads. `last_failed_at` counts nanoseconds from the
-- zero value of `time.Time`.
pub record QueuedTask : Type 0 where
  pub id : String
  pub queue : String
  pub payload : String
  pub last_failed_at : ℕ

-- The part of asynq's `QueueInfo` that the source reads.
pub record QueueInfo : Type 0 where
  pub scheduled : ℕ
  pub pending : ℕ
  pub retry : ℕ

-- The sum that the API compares with the limit and reports.
abbrev pub queue_size : QueueInfo → ℕ
queue_size q = q.scheduled + q.pending + q.retry

-- The options `MaxRetry`, `Queue` and `Timeout` (in seconds) of a new task.
pub record TaskOptions : Type 0 where
  pub max_retry : ℕ
  pub queue : String
  pub timeout : ℤ

-- The states in which asynq lists tasks.
pub data ListKind : Type 0 where
  archived scheduled pending retry active : ListKind

-- The interface `TaskDistributor`.
pub record TaskDistributor (W : Type 0) : Type 0 where
  pub distribute_task_run_prediction : PayloadRunPrediction → TaskOptions → Exec W (Result String)
  pub get_task_queue_info : String → Exec W (Result QueueInfo)
  pub delete_task : String → String → Exec W (Result (Unit {0}))
  pub list_archived_tasks : String → Exec W (Result (List QueuedTask))
  pub list_scheduled_tasks : String → Exec W (Result (List QueuedTask))
  pub list_pending_tasks : String → Exec W (Result (List QueuedTask))
  pub list_retry_tasks : String → Exec W (Result (List QueuedTask))
  pub list_active_tasks : String → Exec W (Result (List QueuedTask))
  pub list_unfinished_tasks : String → Exec W (Result (List QueuedTask))
  pub pause_queue : String → Exec W (Result (Unit {0}))
  pub unpause_queue : String → Exec W (Result (Unit {0}))

-- asynq's client and inspector. `enqueue` takes the task's type, its payload and options, and
-- returns the id of the new task; `list` takes a page size.
pub record Asynq (W : Type 0) : Type 0 where
  pub enqueue : String → String → TaskOptions → Exec W (Result String)
  pub get_queue_info : String → Exec W (Result QueueInfo)
  pub delete : String → String → Exec W (Result (Unit {0}))
  pub list : ListKind → String → ℤ → Exec W (Result (List QueuedTask))
  pub pause : String → Exec W (Result (Unit {0}))
  pub unpause : String → Exec W (Result (Unit {0}))

-- `Stop` and `Shutdown` of `RedisTaskProcessor`, which are those of asynq's server.
pub record TaskProcessor (W : Type 0) : Type 0 where
  pub stop : Exec W (Unit {0})
  pub shutdown : Exec W (Unit {0})

-- The clock and the source of UUIDs; `sleep` takes a duration in nanoseconds.
pub record Runtime (W : Type 0) : Type 0 where
  pub now : Exec W ℕ
  pub sleep : ℤ → Exec W (Unit {0})
  pub new_uuid : Exec W String

-- The Prometheus counters and gauges that the source declares, floats as bit patterns. The ratio
-- gauge is set to the quotient of its two arguments as floats.
pub record Metrics (W : Type 0) : Type 0 where
  pub predict_failure_inc : Exec W (Unit {0})
  pub predict_time_set : ℕ → Exec W (Unit {0})
  pub queue_size_set : ℕ → Exec W (Unit {0})
  pub queue_size_ratio_set : ℕ → ℤ → Exec W (Unit {0})
  pub task_status_set_to_failed_set : ℕ → Exec W (Unit {0})

-- JSON as the payload's type: `json.Marshal` and `json.Unmarshal`.
pub record PayloadCodec : Type 0 where
  pub marshal : PayloadRunPrediction → Result String
  pub unmarshal : String → Result PayloadRunPrediction
