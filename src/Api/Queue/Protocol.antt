-- ===== src/Api/Queue/Protocol.antt =====
-- The handler `asyncPredict` keeps to the protocol of a task, as a machine over the calls of a run.
use serving_agent.Common.{
  String, ◌≡◌, ◌&&◌, List, [], ◌∷◌, arith, eq_iff, str_eq, ok, err, some, Result, leb_ℤ, ℤ, pos,
  if◌then◌else◌,
}
use serving_agent.Platform.{InferRequest, update_of}
use serving_agent.Worker.{
  Runtime, QueueInfo, queue_size, queue_critical, PayloadRunPrediction, TaskOptions,
}
use serving_agent.Worker.Predict.{failed_update}
use serving_agent.Api.{Server, Reply, json, with_upload_webhook}
use serving_agent.Api.Queue.{ReplyCodec, async_predict, task_options}
use serving_agent.Api.Queue.Admission.{run_async}
use serving_agent.Trace.{Call, create_call, update_call, enqueue_call, queue_info_call, delete_call}

-- How far the task has come: `queued` knows the queue's name for it, which is to be stored in the
-- record; in `unlinked` this failed, and the task is to be taken out again; in `unqueued` the queue
-- refused it; `strayed` is a call that the protocol does not allow.
pub data Phase : Type 0 where
  idle : Phase
  full : Phase
  admitted : Phase
  refused : Phase
  created : Phase
  queued : String → Phase
  unqueued : Phase
  linked : Phase
  unlinked : String → Phase
  withdrawn : Phase
  given_up : Phase
  strayed : Phase

module _ (max_queue_size : ℤ) (options : TaskOptions) (id : String) (request : InferRequest) where
  -- A queue whose size cannot be read has room.
  abbrev measured : Result QueueInfo → Phase
  measured (err _) = admitted
  measured (ok info) = if leb_ℤ max_queue_size (pos (queue_size info)) then full else admitted

  abbrev recorded : Result String → Phase
  recorded (ok _) = created
  recorded (err _) = refused

  abbrev taken : Result String → Phase
  taken (ok task_id) = queued task_id
  taken (err _) = unqueued

  abbrev stored : String → Result (Unit {0}) → Phase
  stored task_id (ok _) = linked
  stored task_id (err _) = unlinked task_id

  abbrev step : Phase → Call → Phase
  step idle (queue_info_call _ a) = measured a
  step admitted (create_call k s a) = if str_eq k id && str_eq s "" then recorded a else strayed
  step created (enqueue_call _ _ a) = taken a
  step (queued task_id) (update_call _ a) = stored task_id a
  step unqueued (update_call _ _) = given_up
  step (unlinked task_id) (delete_call _ _ _) = withdrawn
  step _ _ = strayed

  abbrev pub phase_of : List Call → Phase
  phase_of [] = idle
  phase_of (c ∷ cs) = step (phase_of cs) c

  abbrev payload : PayloadRunPrediction
  payload = record { request = request; id = id; api_version = "v1" }

  abbrev Carries : Phase → Call → Type 0
  Carries idle (queue_info_call q _) = q ≡ queue_critical
  Carries created (enqueue_call p o _) = (p ≡ payload) × (o ≡ options)
  Carries (queued task_id) (update_call u _) = u ≡ record (update_of id) { queue_id = task_id }
  Carries unqueued (update_call u _) = u ≡ failed_update id "task queue failed"
  Carries (unlinked task_id) (delete_call q t _) = (q ≡ queue_critical) × (t ≡ task_id)
  Carries _ _ = Unit

  -- What each call carries is what the phase asks for.
  abbrev pub Conforms : List Call → Type 0
  Conforms [] = Unit
  Conforms (c ∷ cs) = Carries (phase_of cs) c × Conforms cs

-- The status that a phase is answered with.
abbrev pub RepliesIn : Reply → Phase → Type 0
RepliesIn (json code body) full = code ≡ 429
RepliesIn (json code body) linked = code ≡ 200
RepliesIn (json code body) refused = code ≡ 500
RepliesIn (json code body) created = code ≡ 500
RepliesIn (json code body) withdrawn = code ≡ 500
RepliesIn (json code body) given_up = code ≡ 500
RepliesIn _ _ = ⊥

module _ {E : Type 0} (codec : ReplyCodec) (runtime : Runtime E) (server : Server E) where
  -- If the upload address can be written into the request, then over any services a run of the
  -- handler `asyncPredict` is a run of the protocol of a task, for the fresh id and the request
  -- with this address, and nothing else is called: the size of the critical queue is asked for;
  -- if there is room, or the size cannot be read, a record is created with the empty status; if
  -- that is acknowledged and its answer can be read, the task with the record's id goes into the
  -- queue with the options of the settings; then the queue's id for it is stored in the record,
  -- and if that is refused, the task is deleted again; but if the queue refused the task, the
  -- record is marked as failed. The answer is 429 when there was no room, 200 when the id was
  -- stored, and 500 otherwise.
  pub async_predict-Refines :
      (request sent : InferRequest) (uid : String) (e : E)
      → with_upload_webhook server.config request ≡ some sent
      → let (r, w) = run_async codec runtime server (ok request) uid e in
        let id = (runtime.new_uuid e).0 in
        let options = task_options codec runtime server in
        RepliesIn r (phase_of server.config.max_queue_size options id sent w.calls)
        × Conforms server.config.max_queue_size options id sent w.calls
  unfolding async_predict
  async_predict-Refines request sent uid e uploads =
      let id = (runtime.new_uuid e).0 in ground (arith, eq_iff id id, eq_iff "" "")
