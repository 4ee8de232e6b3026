-- ===== src/Api/Queue/Admission.antt =====
-- What `asyncPredict` does to the queue and to the task's record, over any services.
use serving_agent.Common.{
  String, Bool, true, false, ◌≡◌, ◌≢◌, ◌↔◌, ◌||◌, some, List, [], ◌∷◌, ◌⊎◌, arith, Result, ok, err,
  pos, ◌≤ℤ◌, str_eq,
}
use serving_agent.Platform.{InferRequest}
use serving_agent.Worker.{Runtime, QueueInfo, queue_size, queue_critical}
use serving_agent.Worker.Predict.{failed_update}
use serving_agent.Api.{Server, Reply, status, with_upload_webhook}
use serving_agent.Api.Queue.{ReplyCodec, async_predict}
use serving_agent.Trace.{World, Call, start, create_call, update_call, enqueue_call, delete_call}
use serving_agent.Trace.Record.{recorded_runtime}
use serving_agent.Trace.Record.{recorded_server}

-- The calls of an accepted task: record `id` was created, a task that carries `id` went into the
-- critical queue, and the queue's name for it was stored in the record.
abbrev pub Accepted : String → List Call → Type 0
Accepted id (update_call u (ok _) ∷ enqueue_call p o (ok t) ∷ create_call j s (ok _) ∷ _) =
    (j ≡ id) × (p.id ≡ id) × (o.queue ≡ queue_critical) × (u.id ≡ id) × (u.queue_id ≡ t)
Accepted id _ = ⊥

abbrev pub IsIn : String → List String → Type 0
IsIn t [] = ⊥
IsIn t (d ∷ ds) = (d ≡ t) ⊎ IsIn t ds

-- Every task put into the queue was taken out again, or at least its deletion was asked for; `ds`
-- are the deletions asked for later.
abbrev pub Withdrawn : List String → List Call → Type 0
Withdrawn ds [] = Unit
Withdrawn ds (delete_call _ t _ ∷ cs) = Withdrawn (t ∷ ds) cs
Withdrawn ds (enqueue_call _ _ (ok t) ∷ cs) = IsIn t ds × Withdrawn ds cs
Withdrawn ds (_ ∷ cs) = Withdrawn ds cs

-- No record was created and nothing was put into the queue.
abbrev pub Untouched : List Call → Type 0
Untouched [] = Unit
Untouched (create_call _ _ _ ∷ cs) = ⊥
Untouched (enqueue_call _ _ _ ∷ cs) = ⊥
Untouched (_ ∷ cs) = Untouched cs

-- The status `failed` was written to a record, acknowledged or not.
abbrev pub wrote_failed : List Call → Bool
wrote_failed [] = false
wrote_failed (update_call u _ ∷ cs) = str_eq u.status "failed" || wrote_failed cs
wrote_failed (_ ∷ cs) = wrote_failed cs

-- The queue refused a task.
abbrev pub queue_refused : List Call → Bool
queue_refused [] = false
queue_refused (enqueue_call _ _ (err _) ∷ cs) = true
queue_refused (_ ∷ cs) = queue_refused cs

module _ {E : Type 0} (codec : ReplyCodec) (runtime : Runtime E) (server : Server E) where
  abbrev pub run_async : Result InferRequest → String → E → Reply × World E
  run_async bound uid e =
      async_predict codec (recorded_runtime runtime) (recorded_server server) bound uid (start e)

  -- The queue is known to be full when the request arrives.
  abbrev pub IsFull : E → Type 0
  IsFull e =
      (info : QueueInfo) × ((server.distributor.get_task_queue_info queue_critical
          (runtime.new_uuid e).1).0
        ≡ ok info)
      × (server.config.max_queue_size ≤ℤ pos (queue_size info))

  -- For a request that is bound and into which the upload address can be put, the answer is 429
  -- if and only if the queue's sizes can be read and add up to the configured maximum or more.
  pub async_predict-429_iff :
      (req req' : InferRequest) (uid : String) (e : E)
      → with_upload_webhook server.config req ≡ some req'
      → ((status (run_async (ok req) uid e).0 ≡ 429) ↔ IsFull e)
  unfolding async_predict failed_update
  async_predict-429_iff req req' uid e h = (λ full. ground arith, λ full. ground arith)

  -- If an asynchronous prediction is answered with 429 or with 400, no record was created and
  -- nothing was put into the queue.
  pub async_predict-Untouched :
      (bound : Result InferRequest) (uid : String) (e : E)
      → (status (run_async bound uid e).0 ≡ 429) ⊎ (status (run_async bound uid e).0 ≡ 400)
      → Untouched (run_async bound uid e).1.calls
  unfolding async_predict failed_update
  async_predict-Untouched bound uid e h = ground arith

  -- If an asynchronous prediction is answered with 200, then its last three calls are, in this
  -- order, all acknowledged: the record with the fresh id was created, a task with that id went
  -- into the critical queue, and the id that the queue gave it was stored in the record.
  pub async_predict-Accepted :
      (bound : Result InferRequest) (uid : String) (e : E)
      → status (run_async bound uid e).0 ≡ 200
      → Accepted (runtime.new_uuid e).0 (run_async bound uid e).1.calls
  unfolding async_predict failed_update
  async_predict-Accepted bound uid e h = ground arith

  -- If an asynchronous prediction is not answered with 200, then for every task that the queue
  -- had taken, a deletion of that task was asked for later.
  pub async_predict-Withdrawn :
      (bound : Result InferRequest) (uid : String) (e : E)
      → status (run_async bound uid e).0 ≢ 200
      → Withdrawn [] (run_async bound uid e).1.calls
  unfolding async_predict failed_update
  async_predict-Withdrawn bound uid e h = ground arith

  -- An asynchronous prediction asks to mark a record as `failed` if and only if the queue has
  -- refused its task.
  pub async_predict-wrote_failed :
      (bound : Result InferRequest) (uid : String) (e : E)
      → wrote_failed (run_async bound uid e).1.calls ≡ queue_refused (run_async bound uid e).1.calls
  unfolding async_predict failed_update
  async_predict-wrote_failed bound uid e = ground arith
