-- ===== src/Worker/Distributor/Archived.antt =====
-- `CheckArchivedTasks`: every readable archived task is given up, and a task is deleted only with a
-- reason, over any services.
use mathlib.Core.List.{reverse_aux, reverse}
use serving_agent.Common.{
  ℕ, ◌+◌, ◌≤◌, String, ◌≡◌, refl, ◌∙◌, ◌⊎◌, inl, inr, List, [], ◌∷◌, arith, Result, ok, err, All,
  Bool-cases, ltb,
}
use serving_agent.Platform.{Webhook}
use serving_agent.Worker.{
  PayloadCodec, PayloadRunPrediction, QueuedTask, TaskDistributor, Runtime, queue_critical,
}
use serving_agent.Worker.Distributor.{
  twelve_hours, give_up, tasks_or_none, drop_task, drop_if_due, check_payload, check_archived_task,
  check_archived_from, check_listed, check_archived_tasks,
}
use serving_agent.Worker.Distributor.Notices.{notice, notices, reverse_aux-notice}
use serving_agent.Trace.{World, Call, start, updates, update_call, delete_call, now_call}
use serving_agent.Trace.Record.{recorded_webhook, recorded_distributor, recorded_runtime}

abbrev pub IsListed : QueuedTask → List QueuedTask → Type 0
IsListed task [] = ⊥
IsListed task (t ∷ ts) = (task ≡ t) ⊎ IsListed task ts

abbrev pub system_errors : String
system_errors = "failed due to system errors"

module _ (codec : PayloadCodec) (tasks : List QueuedTask) where
  -- A listed task whose payload names the record, in which the last acknowledged word is that the
  -- task has failed.
  abbrev pub Reported : String → String → String → Type 0
  Reported queue id record_id =
      (task : QueuedTask) × IsListed task tasks
      × (task.queue ≡ queue)
      × (task.id ≡ id)
      × (payload : PayloadRunPrediction) × (codec.unmarshal task.payload ≡ ok payload)
      × (payload.id ≡ record_id)

  -- A listed task that failed last at least twelve hours before `now`.
  abbrev pub Expired : String → String → ℕ → Type 0
  Expired queue id now =
      (task : QueuedTask) × IsListed task tasks
      × (task.queue ≡ queue)
      × (task.id ≡ id)
      × (task.last_failed_at + twelve_hours ≤ now)

  -- Each deletion comes right after an acknowledged update that gives the task's record up, or after
  -- such an update was refused and the clock showed that the task has expired.
  abbrev pub Justified : List Call → Type 0
  Justified [] = Unit
  Justified (delete_call queue id _ ∷ update_call u (ok _) ∷ cs) =
      (u ≡ give_up u.id system_errors) × Reported queue id u.id × Justified cs
  Justified (delete_call queue id _ ∷ now_call now ∷ update_call u (err _) ∷ cs) =
      (u ≡ give_up u.id system_errors)
      × Reported queue id u.id
      × Expired queue id now
      × Justified cs
  Justified (delete_call _ _ _ ∷ _) = ⊥
  Justified (_ ∷ cs) = Justified cs

module _ {E : Type 0} (codec : PayloadCodec) (runtime : Runtime E) (distributor : TaskDistributor E)
    (webhook : Webhook E) where
  abbrev check_one : QueuedTask → World E → World E
  check_one task w =
      (check_archived_task codec (recorded_runtime runtime) (recorded_distributor distributor)
        (recorded_webhook webhook) task w).1

  abbrev check : List QueuedTask → World E → World E
  check tasks w =
      (check_archived_from codec (recorded_runtime runtime) (recorded_distributor distributor)
        (recorded_webhook webhook) tasks w).1

  abbrev pub run_archived : E → World E
  run_archived e =
      (check_archived_tasks codec (recorded_runtime runtime) (recorded_distributor distributor)
        (recorded_webhook webhook) (start e)).1

  abbrev pub archive : E → List QueuedTask
  archive e = tasks_or_none (distributor.list_archived_tasks queue_critical e).0

  updates-check_one :
      (task : QueuedTask) (w : World E)
      → updates (check_one task w).calls
        ≡ notice system_errors (codec.unmarshal task.payload) (updates w.calls)
  unfolding check_archived_task check_payload drop_if_due drop_task
  updates-check_one task w = ground arith

  updates-check :
      (tasks : List QueuedTask) (w : World E)
      → updates (check tasks w).calls
        ≡ reverse_aux (notices codec system_errors tasks) (updates w.calls)
  unfolding check_archived_from
  updates-check [] w = refl
  updates-check (task ∷ tasks) w =
      updates-check tasks (check_one task w) ∙ rw (updates-check_one task w, reverse_aux-notice)

  -- The world after an update was sent.
  abbrev sent : String → Result (Unit {0}) → E → List Call → World E
  sent id answer e cs = record {
    env = e;
    calls = update_call (give_up id system_errors) answer ∷ cs;
  }

  Justified-drop_if_due :
      (all : List QueuedTask) (task : QueuedTask) (id : String) (answer : Result (Unit {0})) (e : E)
      (cs : List Call)
      → IsListed task all
      → Reported codec all task.queue task.id id
      → Justified codec all cs
      → Justified codec all
          (drop_if_due codec
            (recorded_runtime runtime)
            (recorded_distributor distributor)
            (recorded_webhook webhook)
            task
            answer
            (sent id answer e cs)).1.calls
  unfolding drop_if_due drop_task
  Justified-drop_if_due all task id (ok _) e cs m reported h = (refl, reported, h)
  Justified-drop_if_due all task id (err x) e cs m reported h =
      elim (Bool-cases (ltb (runtime.now e).0 (task.last_failed_at + twelve_hours))) [
        | inl soon ↦ rw soon h
        | inr late ↦ rw late (refl, reported, (task, m, refl, refl, ground arith), h)
      ]

  Justified-check_payload :
      (all : List QueuedTask) (task : QueuedTask) (r : Result PayloadRunPrediction) (w : World E)
      → codec.unmarshal task.payload ≡ r
      → IsListed task all
      → Justified codec all w.calls
      → Justified codec all
          (check_payload codec
            (recorded_runtime runtime)
            (recorded_distributor distributor)
            (recorded_webhook webhook)
            task
            r
            w).1.calls
  unfolding check_payload
  Justified-check_payload all task (err e) w read m h = h
  Justified-check_payload all task (ok p) w read m h =
      Justified-drop_if_due all task p.id _ _ w.calls m (task, m, refl, refl, p, read, refl) h

  Justified-check_one :
      (all : List QueuedTask) (task : QueuedTask) (w : World E)
      → IsListed task all
      → Justified codec all w.calls
      → Justified codec all (check_one task w).calls
  unfolding check_archived_task
  Justified-check_one all task w = Justified-check_payload all task _ w refl

  Justified-check :
      (all tasks : List QueuedTask) (w : World E)
      → All (λ t. IsListed t all) tasks
      → Justified codec all w.calls
      → Justified codec all (check tasks w).calls
  unfolding check_archived_from
  Justified-check all [] w m h = h
  Justified-check all (task ∷ tasks) w m h =
      Justified-check all tasks (check_one task w) m.1 (Justified-check_one all task w m.0 h)

  All-IsListed :
      (task : QueuedTask) (all tasks : List QueuedTask)
      → All (λ t. IsListed t all) tasks
      → All (λ t. IsListed t (task ∷ all)) tasks
  All-IsListed task all [] m = tt
  All-IsListed task all (t ∷ ts) m = (inr m.0, All-IsListed task all ts m.1)

  All-IsListed_self : (tasks : List QueuedTask) → All (λ t. IsListed t tasks) tasks
  All-IsListed_self [] = tt
  All-IsListed_self (task ∷ tasks) =
      (inl refl, All-IsListed task tasks tasks (All-IsListed_self tasks))

  check_listed_careful :
      (answer : Result (List QueuedTask)) (w : World E)
      → (updates w.calls ≡ [])
      → Justified codec (tasks_or_none answer) w.calls
      → let w' =
          (check_listed codec
            (recorded_runtime runtime)
            (recorded_distributor distributor)
            (recorded_webhook webhook)
            answer
            w).1 in
        (updates w'.calls ≡ reverse (notices codec system_errors (tasks_or_none answer)))
        × Justified codec (tasks_or_none answer) w'.calls
  unfolding check_listed
  check_listed_careful (err x) w fresh h = (fresh, h)
  check_listed_careful (ok tasks) w fresh h =
      (updates-check tasks w ∙ rw fresh, Justified-check tasks tasks w (All-IsListed_self tasks) h)

  -- The check asks to give up the record of every listed archived task whose payload can be read,
  -- once each and in order, whatever became of the others; and each deletion that it asks for is
  -- of a listed task and comes right after an acknowledged update that gives the task's record
  -- up, or after such an update was refused and the clock showed that the task failed at least
  -- twelve hours ago.
  pub check_archived_tasks_careful :
      (e : E)
      → (updates (run_archived e).calls ≡ reverse (notices codec system_errors (archive e)))
        × Justified codec (archive e) (run_archived e).calls
  unfolding check_archived_tasks
  check_archived_tasks_careful e =
      let (answer, w) =
        (recorded_distributor distributor).list_archived_tasks queue_critical (start e) in
      check_listed_careful answer w refl tt
