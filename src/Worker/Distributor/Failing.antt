-- ===== src/Worker/Distributor/Failing.antt =====
-- One round of `CheckArchivedTasks` and of `ShutdownDistributor` over a webhook service that keeps
-- what it is told.
use serving_agent.Common.{
  String, contains, ◌++◌, ◌≡◌, refl, List, [], ◌∷◌, Result, ok, err, if◌then◌else◌, arith, eq_iff,
}
use serving_agent.Platform.{Webhook}
use serving_agent.Worker.{PayloadCodec, PayloadRunPrediction, QueuedTask, TaskDistributor, Runtime}
use serving_agent.Worker.Distributor.{give_up, drop_task, drop_if_due, check_payload, close_payload}
use serving_agent.Worker.Distributor.Records.{
  Copies, RecordStore, IsReachable, failed_copies, copies-written,
}

-- The id of the record that a payload names, if it can be read.
abbrev pub id_of : Result PayloadRunPrediction → List String
id_of (err _) = []
id_of (ok payload) = payload.id ∷ []

abbrev pub ids_of : PayloadCodec → List QueuedTask → List String
ids_of codec [] = []
ids_of codec (task ∷ tasks) = id_of (codec.unmarshal task.payload) ++ ids_of codec tasks

-- The queue and the clock leave the records alone.
pub record LeavesAlone {E : Type 0} (copies : E → String → Copies) (runtime : Runtime E)
    (distributor : TaskDistributor E) : Type 0 where
  pub copies-delete :
      (queue id k : String) (e : E) → copies (distributor.delete_task queue id e).1 k ≡ copies e k
  pub copies-now : (k : String) (e : E) → copies (runtime.now e).1 k ≡ copies e k

module _ {E : Type 0} (codec : PayloadCodec) (runtime : Runtime E) (distributor : TaskDistributor E)
    (webhook : Webhook E) (store : RecordStore webhook) (up : IsReachable webhook store)
    (alone : LeavesAlone store.copies runtime distributor) where
  open store use {copies}
  open up use {update-ok}
  open alone use {copies-delete, copies-now}

  drop_if_due_lem :
      (task : QueuedTask) (updated : Result (Unit {0})) (k : String) (e : E)
      → copies (drop_if_due codec runtime distributor webhook task updated e).1 k ≡ copies e k
  unfolding drop_if_due drop_task
  drop_if_due_lem task (ok _) k e = copies-delete task.queue task.id k e
  drop_if_due_lem task (err x) k e =
      ground (arith, copies-now k e, copies-delete task.queue task.id k (runtime.now e).1)

  pub check_payload_lem :
      (task : QueuedTask) (payload : Result PayloadRunPrediction) (k : String) (e : E)
      → copies (check_payload codec runtime distributor webhook task payload e).1 k
        ≡ (if contains (id_of payload) k then failed_copies (copies e k) else copies e k)
  unfolding check_payload contains
  check_payload_lem task (err x) k e = refl
  check_payload_lem task (ok payload) k e =
      let u = give_up payload.id "failed due to system errors" in
      let (updated, e₁) = webhook.update_task_info u e in
      ground (
        arith,
        eq_iff "failed" "",
        drop_if_due_lem task updated k e₁,
        copies-written webhook store u k e (update-ok u e),
      )

  pub close_payload_lem :
      (task : QueuedTask) (payload : Result PayloadRunPrediction) (k : String) (e : E)
      → copies (close_payload codec distributor webhook task payload e).1 k
        ≡ (if contains (id_of payload) k then failed_copies (copies e k) else copies e k)
  unfolding close_payload drop_task contains
  close_payload_lem task (err x) k e = refl
  close_payload_lem task (ok payload) k e =
      let u = give_up payload.id "the task queue was closed" in
      let e₁ = (webhook.update_task_info u e).1 in
      ground (
        arith,
        eq_iff "failed" "",
        copies-delete task.queue task.id k e₁,
        copies-written webhook store u k e (update-ok u e),
      )
