-- ===== src/Worker/Distributor/Shutdown.antt =====
-- `ShutdownDistributor` gives up every task that it can read, over any services.
use mathlib.Core.List.{reverse_aux, reverse}
use mathlib.Core.List.{append_assoc, append-nil}
use serving_agent.Common.{
  String, ◌≡◌, refl, ◌∙◌, sym, ap, List, [], ◌∷◌, ◌++◌, arith, Result, ok, err,
}
use serving_agent.Platform.{Webhook}
use serving_agent.Worker.{PayloadCodec, QueuedTask, TaskDistributor, queue_critical}
use serving_agent.Worker.Distributor.{
  tasks_or_none, gather, close_payload, close_task, close_tasks, shutdown_distributor,
}
use serving_agent.Worker.Distributor.Notices.{
  notice, notices, dropped, drops, reverse_aux-notice, reverse_aux-dropped,
}
use serving_agent.Trace.{World, start, updates, deletions, hosted}
use serving_agent.Trace.Record.{recorded_webhook, recorded_distributor}

gather_lem :
    (tasks : List QueuedTask) (listed : Result (List QueuedTask))
    → gather tasks listed ≡ tasks ++ tasks_or_none listed
gather_lem tasks (err x) = sym (append-nil tasks)
gather_lem tasks (ok more) = refl

-- A listing that failed adds nothing to those before it, and one that did not comes after them.
pub gathered :
    (scheduled pending retry : Result (List QueuedTask))
    → gather (gather (gather [] scheduled) pending) retry
      ≡ tasks_or_none scheduled ++ (tasks_or_none pending ++ tasks_or_none retry)
gathered scheduled pending retry =
    rw (gather_lem [] scheduled, gather_lem (tasks_or_none scheduled) pending)
      (gather_lem (tasks_or_none scheduled ++ tasks_or_none pending) retry
        ∙ append_assoc (tasks_or_none scheduled) (tasks_or_none pending) (tasks_or_none retry))

abbrev pub closing : String
closing = "the task queue was closed"

module _ {E : Type 0} (codec : PayloadCodec) (distributor : TaskDistributor E)
    (webhook : Webhook E) where
  abbrev close_one : QueuedTask → World E → World E
  close_one task w =
      (close_task codec (recorded_distributor distributor) (recorded_webhook webhook) task w).1

  abbrev close : List QueuedTask → World E → World E
  close tasks w =
      (close_tasks codec (recorded_distributor distributor) (recorded_webhook webhook) tasks w).1

  abbrev pub run_shutdown : E → World E
  run_shutdown e =
      (shutdown_distributor codec (recorded_distributor distributor) (recorded_webhook webhook)
        (start e)).1

  updates-close_one :
      (task : QueuedTask) (w : World E)
      → updates (close_one task w).calls
        ≡ notice closing (codec.unmarshal task.payload) (updates w.calls)
  unfolding close_task close_payload
  updates-close_one task w = ground arith

  deletions-close_one :
      (task : QueuedTask) (w : World E)
      → deletions (close_one task w).calls
        ≡ dropped (codec.unmarshal task.payload) task (deletions w.calls)
  unfolding close_task close_payload
  deletions-close_one task w = ground arith

  updates-close :
      (tasks : List QueuedTask) (w : World E)
      → updates (close tasks w).calls ≡ reverse_aux (notices codec closing tasks) (updates w.calls)
  unfolding close_tasks
  updates-close [] w = refl
  updates-close (task ∷ tasks) w =
      updates-close tasks (close_one task w)
      ∙ rw (updates-close_one task w, reverse_aux-notice closing)

  deletions-close :
      (tasks : List QueuedTask) (w : World E)
      → deletions (close tasks w).calls ≡ reverse_aux (drops codec tasks) (deletions w.calls)
  unfolding close_tasks
  deletions-close [] w = refl
  deletions-close (task ∷ tasks) w =
      deletions-close tasks (close_one task w)
      ∙ rw (deletions-close_one task w, reverse_aux-dropped)

  hosted-close_one :
      (task : QueuedTask) (w : World E) → hosted (close_one task w).calls ≡ hosted w.calls
  unfolding close_task close_payload
  hosted-close_one task w = ground arith

  hosted-close :
      (tasks : List QueuedTask) (w : World E) → hosted (close tasks w).calls ≡ hosted w.calls
  unfolding close_tasks
  hosted-close [] w = refl
  hosted-close (task ∷ tasks) w = hosted-close tasks (close_one task w) ∙ hosted-close_one task w

  -- The tasks that the three listings return, one after the other; the answers are those of the
  -- world in the order of the calls.
  abbrev pub unfinished : E → List QueuedTask
  unfinished e =
      let (scheduled, e₁) = distributor.list_scheduled_tasks queue_critical e in
      let (pending, e₂) = distributor.list_pending_tasks queue_critical e₁ in
      let (retry, e₃) = distributor.list_retry_tasks queue_critical e₂ in
      tasks_or_none scheduled ++ (tasks_or_none pending ++ tasks_or_none retry)

  -- The same from any world, which may have calls on record.
  pub shutdown_from :
      (w : World E)
      → let w' =
          (shutdown_distributor codec
            (recorded_distributor distributor)
            (recorded_webhook webhook)
            w).1 in
        (updates w'.calls
          ≡ reverse_aux (notices codec closing (unfinished w.env)) (updates w.calls))
        × (deletions w'.calls ≡ reverse_aux (drops codec (unfinished w.env)) (deletions w.calls))
  unfolding shutdown_distributor
  shutdown_from w =
      let (scheduled, e₁) = distributor.list_scheduled_tasks queue_critical w.env in
      let (pending, e₂) = distributor.list_pending_tasks queue_critical e₁ in
      let (retry, e₃) = distributor.list_retry_tasks queue_critical e₂ in
      let tasks = gather (gather (gather [] scheduled) pending) retry in
      let same = gathered scheduled pending retry in
      (
        updates-close tasks _
            ∙ ap (λ ts. reverse_aux (notices codec closing ts) (updates w.calls)) same,
        deletions-close tasks _ ∙ ap (λ ts. reverse_aux (drops codec ts) (deletions w.calls)) same,
      )

  pub hosted-shutdown :
      (w : World E)
      → hosted
          (shutdown_distributor codec
            (recorded_distributor distributor)
            (recorded_webhook webhook)
            w).1.calls
        ≡ hosted w.calls
  unfolding shutdown_distributor
  hosted-shutdown w =
      let (scheduled, e₁) = distributor.list_scheduled_tasks queue_critical w.env in
      let (pending, e₂) = distributor.list_pending_tasks queue_critical e₁ in
      let (retry, e₃) = distributor.list_retry_tasks queue_critical e₂ in
      hosted-close (gather (gather (gather [] scheduled) pending) retry) _

  -- A shutdown asks for one update that gives the record up and for one deletion for every task
  -- with a readable payload that is listed: the scheduled, the pending and the retried tasks, one
  -- after the other, where a listing that failed adds none. This is so whatever the webhook and
  -- the queue answer: a task is deleted also when its update was refused.
  pub shutdown_gives_up_all :
      (e : E)
      → (updates (run_shutdown e).calls ≡ reverse (notices codec closing (unfinished e)))
        × (deletions (run_shutdown e).calls ≡ reverse (drops codec (unfinished e)))
  shutdown_gives_up_all e = shutdown_from (start e)
