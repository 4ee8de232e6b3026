-- ===== src/Api/Tasks/Cancel.antt =====
-- Canceling tasks and clearing the queue, over any services.
use serving_agent.Common.{
  ℕ, suc, ◌+◌, ◌≤◌, String, ◌≡◌, refl, ◌∙◌, List, [], ◌∷◌, arith, Result, ok, err, length,
}
use serving_agent.Platform.{TaskInfo}
use serving_agent.Worker.{queue_critical}
use serving_agent.Api.{Server, Reply, status}
use serving_agent.Api.Queue.{ReplyCodec}
use serving_agent.Api.Tasks.{
  canceled_update, cleared_reply, cancel_record, cancel_found, cancel_task, delete_found,
  delete_pending, delete_listed, delete_all_pending_tasks,
}
use serving_agent.Trace.{World, Call, start, update_call, delete_call, get_object_call, updates}
use serving_agent.Trace.Record.{recorded_server}

-- Each update marks a record as canceled, right after that record was read and the queue
-- acknowledged the deletion of its task.
abbrev pub CanceledAfterDeletion : List Call → Type 0
CanceledAfterDeletion [] = Unit
CanceledAfterDeletion
      (update_call u _ ∷ delete_call q t (ok _) ∷ get_object_call _ (ok task) ∷ cs) =
    (u ≡ canceled_update task.id)
    × (q ≡ queue_critical)
    × (t ≡ task.queue_id)
    × CanceledAfterDeletion cs
CanceledAfterDeletion (update_call _ _ ∷ _) = ⊥
CanceledAfterDeletion (_ ∷ cs) = CanceledAfterDeletion cs

-- The newest call is an acknowledged update.
abbrev pub Acknowledged : List Call → Type 0
Acknowledged (update_call _ (ok _) ∷ _) = Unit
Acknowledged _ = ⊥

-- The deletions that the queue acknowledged.
abbrev pub num_deleted : List Call → ℕ
num_deleted [] = 0
num_deleted (delete_call _ _ (ok _) ∷ cs) = suc (num_deleted cs)
num_deleted (_ ∷ cs) = num_deleted cs

-- A cleared queue: the reply counts the records that were named and the deletions that the queue
-- acknowledged, which are no more, and no record was updated. Nothing is deleted if the records
-- cannot be named.
abbrev pub DeletedAsReported : ReplyCodec → Result (List String) → Reply → List Call → Type 0
DeletedAsReported codec (err e) reply cs =
    (status reply ≡ 500) × (num_deleted cs ≡ 0) × (updates cs ≡ [])
DeletedAsReported codec (ok ids) reply cs =
    (reply ≡ cleared_reply codec (length ids) (num_deleted cs))
    × (num_deleted cs ≤ length ids)
    × (updates cs ≡ [])

module _ {E : Type 0} (codec : ReplyCodec) (server : Server E) where
  abbrev pub run_cancel : Result String → E → Reply × World E
  run_cancel bound e = cancel_task codec (recorded_server server) bound (start e)

  cancel_record-CanceledAfterDeletion :
      (id : String) (task : TaskInfo) (answer : Result (Unit {0})) (e : E)
      → CanceledAfterDeletion
          (cancel_record codec (recorded_server server) task answer (record {
            env = e;
            calls =
                delete_call queue_critical task.queue_id answer ∷ get_object_call id (ok task) ∷ [];
          })).1.calls
  unfolding cancel_record
  cancel_record-CanceledAfterDeletion id task (err x) e = tt
  cancel_record-CanceledAfterDeletion id task (ok _) e = (refl, refl, refl, tt)

  cancel_found-CanceledAfterDeletion :
      (id : String) (found : Result TaskInfo) (e : E)
      → CanceledAfterDeletion
          (cancel_found codec
            (recorded_server server)
            found
            (record { env = e; calls = get_object_call id found ∷ [] })).1.calls
  unfolding cancel_found
  cancel_found-CanceledAfterDeletion id (err x) e = tt
  cancel_found-CanceledAfterDeletion id (ok task) e =
      cancel_record-CanceledAfterDeletion id task _ _

  -- When a task is canceled, a record is updated only right after it was read and the queue
  -- acknowledged the deletion of its task from the critical queue, and the update marks it as
  -- canceled.
  pub cancel_task-CanceledAfterDeletion :
      (bound : Result String) (e : E) → CanceledAfterDeletion (run_cancel bound e).1.calls
  unfolding cancel_task
  cancel_task-CanceledAfterDeletion (err x) e = tt
  cancel_task-CanceledAfterDeletion (ok id) e = cancel_found-CanceledAfterDeletion id _ _

  -- If a cancellation is answered with 200, its newest call is an update of a record that the
  -- webhook acknowledged.
  pub cancel_task-Acknowledged :
      (bound : Result String) (e : E)
      → status (run_cancel bound e).0 ≡ 200
      → Acknowledged (run_cancel bound e).1.calls
  unfolding cancel_task
  cancel_task-Acknowledged bound e h = ground arith

  abbrev clear : List String → World E → ℕ × World E
  clear ids w = delete_pending codec (recorded_server server) ids w

  -- What clearing the tasks `ids` adds to the calls.
  record Cleared (most : ℕ) (w : World E) (n : ℕ) (w' : World E) : Type 0 where
    few : n ≤ most
    counted : num_deleted w'.calls ≡ n + num_deleted w.calls
    silent : updates w'.calls ≡ updates w.calls

  clear_one-Cleared :
      (id : String) (found : Result TaskInfo) (w : World E)
      → Cleared 1 w
          (delete_found codec (recorded_server server) found w).0
          (delete_found codec (recorded_server server) found w).1
  unfolding delete_found
  clear_one-Cleared id found w = ground arith

  clear-Cleared :
      (ids : List String) (w : World E) → Cleared (length ids) w (clear ids w).0 (clear ids w).1
  unfolding delete_pending
  clear-Cleared [] w = record { few = omega arith; counted = omega arith; silent = refl }
  clear-Cleared (id ∷ ids) w =
      let (found, w₁) = (recorded_server server).webhook.get_task_info_object id w in
      let first = clear_one-Cleared id found w₁ in
      let rest = clear-Cleared ids (delete_found codec (recorded_server server) found w₁).1 in
      record {
        few = omega (arith, first.few, rest.few);
        counted = omega (arith, first.counted, rest.counted);
        silent = rest.silent ∙ first.silent;
      }

  abbrev pub run_clear : E → Reply × World E
  run_clear e = delete_all_pending_tasks codec (recorded_server server) (start e)

  delete_listed-DeletedAsReported :
      (found : Result (List String)) (w : World E)
      → num_deleted w.calls ≡ 0
      → updates w.calls ≡ []
      → DeletedAsReported codec found
          (delete_listed codec (recorded_server server) found w).0
          (delete_listed codec (recorded_server server) found w).1.calls
  unfolding delete_listed
  delete_listed-DeletedAsReported (err e) w none_deleted none_updated =
      (refl, none_deleted, none_updated)
  delete_listed-DeletedAsReported (ok ids) w none_deleted none_updated =
      let cleared = clear-Cleared ids w in
      let same : num_deleted (clear ids w).1.calls ≡ (clear ids w).0 =
        omega (arith, cleared.counted) in
      (rw same, omega (arith, cleared.few), cleared.silent ∙ none_updated)

  -- Clearing the queue: if the webhook cannot name the pending records, the answer is 500 and the
  -- queue acknowledged no deletion; otherwise the reply counts the records named and the
  -- deletions acknowledged, which are no more. In both cases no record is updated.
  pub delete_all-DeletedAsReported :
      (e : E)
      → DeletedAsReported codec
          (server.webhook.get_task_id_by_model_status server.config.model_name "pending" e).0
          (run_clear e).0
          (run_clear e).1.calls
  unfolding delete_all_pending_tasks
  delete_all-DeletedAsReported e =
      delete_listed-DeletedAsReported _
        ((recorded_server server).webhook.get_task_id_by_model_status server.config.model_name
          "pending" (start e)).1
        refl refl
