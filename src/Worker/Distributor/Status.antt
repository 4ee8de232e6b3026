-- ===== src/Worker/Distributor/Status.antt =====
-- `CheckTaskStatus` gives a record up only when it looked lost just before, over any services.
use serving_agent.Common.{
  ℕ, ◌+◌, ◌≤◌, String, ◌≡◌, refl, ap, ◌∙◌, inl, inr, List, [], ◌∷◌, arith, Result, ok, err, length,
  map, Bool-cases, str_eq,
}
use serving_agent.Config.{Config}
use serving_agent.Platform.{Webhook, TaskInfo}
use serving_agent.Worker.{QueuedTask, TaskDistributor, Runtime, queue_critical}
use serving_agent.Worker.Distributor.{
  ids_or_none, tasks_or_none, check_found, check_task, check_tasks, wait_for_tasks, give_up_lost,
  check_model, check_task_status,
}
use serving_agent.Trace.{World, Call, start, updates, get_object_call}
use serving_agent.Trace.Record.{recorded_webhook, recorded_distributor, recorded_runtime}
use serving_agent.Worker.Distributor.Careful.{
  IsOpen, unfinished_of, Careful, is_lost, is_lost_iff, is_lost-IsOpen, num_named, Reported,
}

module _ {E : Type 0} (config : Config) (runtime : Runtime E) (distributor : TaskDistributor E)
    (webhook : Webhook E) where
  abbrev look : List String → String → String → World E → ℕ × World E
  look unfinished status id w =
      check_task config (recorded_runtime runtime) (recorded_distributor distributor)
        (recorded_webhook webhook) unfinished status id w

  abbrev look_all : List String → String → List String → World E → ℕ × World E
  look_all unfinished status ids w =
      check_tasks config (recorded_runtime runtime) (recorded_distributor distributor)
        (recorded_webhook webhook) unfinished status ids w

  abbrev pub run_status : E → ℕ × World E
  run_status e =
      check_task_status config (recorded_runtime runtime) (recorded_distributor distributor)
        (recorded_webhook webhook) (start e)

  -- What one round keeps: the updates are careful, they are counted, and at most `most` are added.
  record Counted (most : ℕ) (unfinished : List String) (w : World E) (n : ℕ) (w' : World E)
      : Type 0 where
    careful : Careful w'.calls
    same : unfinished_of w'.calls ≡ unfinished
    counted : length (updates w'.calls) ≡ n + length (updates w.calls)
    few : n ≤ most
    named : num_named w'.calls ≡ num_named w.calls

  -- The world after record `id` was read.
  abbrev seen : String → Result TaskInfo → E → List Call → World E
  seen id found e cs = record { env = e; calls = get_object_call id found ∷ cs }

  abbrev judge : List String → String → String → Result TaskInfo → World E → ℕ × World E
  judge unfinished status id found w =
      check_found config (recorded_runtime runtime) (recorded_distributor distributor)
        (recorded_webhook webhook) unfinished status id found w

  judge-Counted :
      (status id : String) (found : Result TaskInfo) (e : E) (cs : List Call) (w : World E)
      → w.calls ≡ cs
      → IsOpen status
      → Careful cs
      → Counted 1
          (unfinished_of cs)
          w
          (judge (unfinished_of cs) status id found (seen id found e cs)).0
          (judge (unfinished_of cs) status id found (seen id found e cs)).1
  unfolding check_found
  judge-Counted status id (err x) e cs w is lost careful = record {
    careful = (refl, careful);
    same = refl;
    counted = ground arith;
    few = ground arith;
    named = ground arith;
  }
  judge-Counted status id (ok task) e cs w is lost careful =
      elim (Bool-cases (is_lost cs status task)) [
        | inl gone ↦ rw gone (record {
          careful = (
            refl,
            is_lost-IsOpen cs status task lost gone,
            (is_lost_iff cs status task gone).0,
            careful,
          );
          same = refl;
          counted = rw is (omega arith);
          few = omega arith;
          named = rw is;
        })
        | inr kept ↦ rw kept (record {
          careful = careful;
          same = refl;
          counted = rw is (omega arith);
          few = omega arith;
          named = rw is;
        })
      ]

  look-Counted :
      (unfinished : List String) (status id : String) (w : World E)
      → IsOpen status
      → unfinished_of w.calls ≡ unfinished
      → Careful w.calls
      → Counted 1 unfinished w (look unfinished status id w).0 (look unfinished status id w).1
  unfolding check_task
  look-Counted unfinished status id w lost same careful =
      rw (← same) (judge-Counted status id _ _ w.calls w refl lost careful)

  look_all-Counted :
      (unfinished : List String) (status : String) (ids : List String) (w : World E)
      → IsOpen status
      → unfinished_of w.calls ≡ unfinished
      → Careful w.calls
      → Counted
          (length ids)
          unfinished
          w
          (look_all unfinished status ids w).0
          (look_all unfinished status ids w).1
  unfolding check_tasks
  look_all-Counted unfinished status [] w lost same careful = record {
    careful = careful;
    same = same;
    counted = omega arith;
    few = omega arith;
    named = refl;
  }
  look_all-Counted unfinished status (id ∷ ids) w lost same careful =
      let first = look-Counted unfinished status id w lost same careful in
      let rest =
        look_all-Counted unfinished status ids (look unfinished status id w).1 lost first.same
          first.careful in
      record {
        careful = rest.careful;
        same = rest.same;
        counted = omega (arith, first.counted, rest.counted);
        few = omega (arith, first.few, rest.few);
        named = rest.named ∙ first.named;
      }

  -- Nothing was updated yet, and `named` records were named.
  record Ready (named : ℕ) (w : World E) : Type 0 where
    careful : Careful w.calls
    fresh : updates w.calls ≡ []
    total : num_named w.calls ≡ named

  abbrev wait : List String → List String → World E → World E
  wait ps rs w =
      (wait_for_tasks config (recorded_runtime runtime) (recorded_distributor distributor)
        (recorded_webhook webhook) ps rs w).1

  wait-Ready :
      (ps rs : List String) (named : ℕ) (w : World E) → Ready named w → Ready named (wait ps rs w)
  unfolding wait_for_tasks
  wait-Ready [] [] named w h = h
  wait-Ready [] (_ ∷ _) named w h = record { careful = h.careful; fresh = h.fresh; total = h.total }
  wait-Ready (_ ∷ _) rs named w h = record { careful = h.careful; fresh = h.fresh; total = h.total }

  give_up_lost-Reported :
      (ps rs : List String) (w : World E)
      → Ready (length ps + length rs) w
      → Reported (
          give_up_lost config
            (recorded_runtime runtime)
            (recorded_distributor distributor)
            (recorded_webhook webhook)
            ps
            rs
            w)
  unfolding give_up_lost
  give_up_lost-Reported ps rs w h =
      let (answer, w₁) =
        (recorded_distributor distributor).list_unfinished_tasks queue_critical w in
      let unfinished = map (λ (t : QueuedTask). t.id) (tasks_or_none answer) in
      let first = look_all-Counted unfinished "pending" ps w₁ (inl refl) refl h.careful in
      let w₂ = (look_all unfinished "pending" ps w₁).1 in
      let second =
        look_all-Counted unfinished "running" rs w₂ (inr refl) first.same first.careful in
      (
        second.careful,
        omega (arith, first.counted, second.counted, ap length h.fresh),
        omega (arith, first.few, second.few, first.named, second.named, h.total),
      )

  check_model-Reported :
      (e : E)
      → Reported (
          check_model config
            (recorded_runtime runtime)
            (recorded_distributor distributor)
            (recorded_webhook webhook)
            (start e))
  unfolding check_model
  check_model-Reported e =
      let h = recorded_webhook webhook in
      let (pending, w₁) = h.get_task_id_by_model_status config.model_name "pending" (start e) in
      let (running, w₂) = h.get_task_id_by_model_status config.model_name "running" w₁ in
      let ps = ids_or_none pending in
      let rs = ids_or_none running in
      let ready : Ready (length ps + length rs) w₂ = record {
        careful = tt;
        fresh = refl;
        total = omega arith;
      } in
      give_up_lost-Reported ps rs (wait ps rs w₂) (wait-Ready ps rs _ w₂ ready)

  -- Every update that the check asks for comes right after its record was read: a record that was
  -- found was still open and its task was not among the unfinished tasks last listed, and for one
  -- that was not found only the database is told. The number that the check returns is the number
  -- of its updates, and is at most the number of records that the webhook named as pending or
  -- running.
  pub check_task_status-Reported : (e : E) → Reported (run_status e)
  unfolding check_task_status
  check_task_status-Reported e = elim (Bool-cases (str_eq config.model_name "")) [
    | inl unset ↦ rw unset (tt, refl, omega arith)
    | inr set ↦ rw set (check_model-Reported e)
  ]
