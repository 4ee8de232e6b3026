-- ===== src/Worker/Processor/Delivery.antt =====
-- A task that one part of the agent puts into the queue is one that the other part takes out.
use serving_agent.Common.{
  String, ◌≡◌, refl, List, [], ◌∷◌, inl, inr, arith, Result, ok, err, some, Result-cases, ◌<>◌,
}
use serving_agent.Config.{Config}
use serving_agent.Platform.{Format, Platform, Webhook}
use serving_agent.Worker.{PayloadRunPrediction, TaskOptions, Asynq, Metrics, PayloadCodec}
use serving_agent.Worker.Predict.{enqueued, distribute_task_run_prediction}
use serving_agent.Worker.Predict.Settles.{Settled, process-Settled}
use serving_agent.Worker.Processor.{
  RedisConnOpt, TaskHandler, new_redis_task_processor, new_redis_task_distributor, start,
}
use serving_agent.Trace.{World}
use serving_agent.Trace.Record.{recorded_webhook, recorded_platform, recorded_metrics}

-- JSON that was written from this payload is read as the payload. It holds of one whose maps are in
-- the order of their keys, in which encoding/json writes them, and have each key once.
abbrev pub ReadsBack : PayloadCodec → PayloadRunPrediction → Type 0
ReadsBack codec p = (bytes : String) → codec.marshal p ≡ ok bytes → codec.unmarshal bytes ≡ ok p

-- A task as it went to asynq: its type, its payload, its options.
pub record Enqueued : Type 0 where
  pub kind : String
  pub bytes : String
  pub opts : TaskOptions

-- A queue that keeps a list of what was handed to it, newest first, and asks `accepts` what to answer.
abbrev pub collecting : (Enqueued → Result String) → Asynq (List Enqueued) → Asynq (List Enqueued)
collecting accepts asynq = record asynq {
  enqueue = λ kind bytes opts tasks.
      let task : Enqueued = record { kind = kind; bytes = bytes; opts = opts } in
      (accepts task, task ∷ tasks);
}

-- The processor reads from this Redis and has a handler for the type of the task, and this handler,
-- whatever the other services are up to by then, settles the record of the payload.
abbrev pub IsHandled :
    {E : Type 0}
    → Format
    → PayloadCodec
    → Webhook E
    → Platform E
    → Metrics E
    → Config
    → RedisConnOpt
    → PayloadRunPrediction
    → Enqueued
    → Type 0
IsHandled {E} format codec webhook platform metrics config redis p task =
    let processor = new_redis_task_processor config in
    (processor.redis ≡ redis)
    × (handler : TaskHandler (World E)) × (start format codec (recorded_webhook webhook)
          (recorded_platform platform) (recorded_metrics metrics) processor
        ≡ handler ∷ [])
    × (handler.pattern ≡ task.kind)
    × ((e : E)
        → let (r, w) = handler.process_task task.bytes (record { env = e; calls = [] }) in
          Settled p.id r w.calls)

module _ {E : Type 0} (format : Format) (codec : PayloadCodec) (webhook : Webhook E)
    (platform : Platform E) (metrics : Metrics E) (config : Config) where
  -- What a call of the distributor did to the queue.
  abbrev pub IsDelivered :
      RedisConnOpt
      → PayloadRunPrediction
      → TaskOptions
      → Result String
      → List Enqueued
      → List Enqueued
      → Type 0
  IsDelivered redis p opts (err x) tasks tasks' = Unit
  IsDelivered redis p opts (ok id) tasks [] = ⊥
  IsDelivered redis p opts (ok id) tasks (task ∷ rest) =
      (rest ≡ tasks)
      × (task.opts ≡ opts)
      × IsHandled format codec webhook platform metrics config redis p task

  same_redis :
      (redis : RedisConnOpt)
      → new_redis_task_distributor config ≡ some redis
      → (new_redis_task_processor config).redis ≡ redis
  unfolding new_redis_task_distributor new_redis_task_processor
  same_redis redis h = ground arith

  enqueued-IsHandled :
      (redis : RedisConnOpt) (p : PayloadRunPrediction) (bytes : String) (opts : TaskOptions)
      → new_redis_task_distributor config ≡ some redis
      → codec.unmarshal bytes ≡ ok p
      → IsHandled format codec webhook platform metrics config redis p
          (record { kind = "task:" <> config.task_type_name; bytes = bytes; opts = opts })
  unfolding start new_redis_task_processor
  enqueued-IsHandled redis p bytes opts connected readable = (
    same_redis redis connected,
    _,
    refl,
    refl,
    (λ e. process-Settled format codec webhook platform metrics bytes p e readable),
  )

  answered-IsDelivered :
      (asynq : Asynq (List Enqueued)) (redis : RedisConnOpt) (p : PayloadRunPrediction)
      (bytes : String) (opts : TaskOptions) (tasks : List Enqueued) (answer : Result String)
      → new_redis_task_distributor config ≡ some redis
      → codec.unmarshal bytes ≡ ok p
      → let task : Enqueued = record {
        kind = "task:" <> config.task_type_name;
        bytes = bytes;
        opts = opts;
      } in
        IsDelivered redis p opts (enqueued config codec asynq answer) tasks (task ∷ tasks)
  answered-IsDelivered asynq redis p bytes opts tasks (err x) connected readable = tt
  answered-IsDelivered asynq redis p bytes opts tasks (ok id) connected readable =
      (refl, refl, enqueued-IsHandled redis p bytes opts connected readable)

  -- If JSON that was written from the payload is read back as this payload, and the distributor
  -- has a connection, then a task that the queue accepts is the only one handed to it, has the
  -- given options, comes with the connection that the processor of the same settings has, and is
  -- of the type for which this processor has its one handler; and this handler, run on the task's
  -- bytes over any services, settles the record of the payload that was put in.
  pub distribute-IsDelivered :
      (accepts : Enqueued → Result String) (asynq : Asynq (List Enqueued)) (redis : RedisConnOpt)
      (p : PayloadRunPrediction) (opts : TaskOptions) (tasks : List Enqueued)
      → ReadsBack codec p
      → new_redis_task_distributor config ≡ some redis
      → let (r, tasks') =
          distribute_task_run_prediction config codec (collecting accepts asynq) p opts tasks in
        IsDelivered redis p opts r tasks tasks'
  unfolding distribute_task_run_prediction
  distribute-IsDelivered accepts asynq redis p opts tasks back connected =
      elim (Result-cases (codec.marshal p)) [
        | inl (bytes, written) ↦ rw written (
            answered-IsDelivered (collecting accepts asynq) redis p bytes opts tasks
              (accepts
                (record { kind = "task:" <> config.task_type_name; bytes = bytes; opts = opts }))
              connected (back bytes written))
        | inr (x, refused) ↦ rw refused tt
      ]
