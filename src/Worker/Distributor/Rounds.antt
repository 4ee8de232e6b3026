-- ===== src/Worker/Distributor/Rounds.antt =====
-- The rounds of `CheckArchivedTasks` and of `ShutdownDistributor`, and the records that they name.
use serving_agent.Common.{
  String, ◌≡◌, refl, ◌∙◌, ap, sym, List, [], ◌∷◌, contains, if◌then◌else◌, map, Exec,
}
use serving_agent.Platform.{Webhook}
use serving_agent.Worker.{PayloadCodec, QueuedTask, TaskDistributor, Runtime}
use serving_agent.Worker.Distributor.{
  check_archived_task, check_archived_from, close_task, close_tasks,
}
use serving_agent.Worker.Distributor.Records.{RecordStore, IsReachable, failed_copies}
use serving_agent.Worker.Distributor.RecordSet.{
  RecordSet, with_all-append, with_all_comm, no_records, with_all, is_in, failed_in,
  failed_in-with_all,
}
use serving_agent.Worker.Distributor.Failing.{
  id_of, ids_of, LeavesAlone, check_payload_lem, close_payload_lem,
}

-- The records that tasks name, as a set.
abbrev pub record_set : PayloadCodec → List QueuedTask → RecordSet
record_set codec tasks = with_all (ids_of codec tasks) no_records

-- A round of one of the two loops.
pub data Round : Type 0 where
  of_check : QueuedTask → Round
  of_shutdown : QueuedTask → Round

abbrev pub task_of : Round → QueuedTask
task_of (of_check task) = task
task_of (of_shutdown task) = task

-- The rounds of two loops, in some order that keeps each one's own order.
pub data AreMerged : List Round → List Round → List Round → Type 0 where
  none_left : AreMerged [] [] []
  from_first :
      {r : Round} {xs ys zs : List Round} → AreMerged xs ys zs → AreMerged (r ∷ xs) ys (r ∷ zs)
  from_second :
      {r : Round} {xs ys zs : List Round} → AreMerged xs ys zs → AreMerged xs (r ∷ ys) (r ∷ zs)

module _ (codec : PayloadCodec) where
  pub tasks_of-check : (tasks : List QueuedTask) → map task_of (map of_check tasks) ≡ tasks
  tasks_of-check [] = refl
  tasks_of-check (task ∷ tasks) = ap (λ ts. task ∷ ts) (tasks_of-check tasks)

  pub tasks_of-shutdown : (tasks : List QueuedTask) → map task_of (map of_shutdown tasks) ≡ tasks
  tasks_of-shutdown [] = refl
  tasks_of-shutdown (task ∷ tasks) = ap (λ ts. task ∷ ts) (tasks_of-shutdown tasks)

  record_set-cons :
      (task : QueuedTask) (tasks : List QueuedTask)
      → record_set codec (task ∷ tasks)
        ≡ with_all (id_of (codec.unmarshal task.payload)) (record_set codec tasks)
  record_set-cons task tasks =
      with_all-append (id_of (codec.unmarshal task.payload)) (ids_of codec tasks) no_records

  -- A merged run names the records that the two loops name.
  pub record_set-merged :
      {xs ys zs : List Round}
      → AreMerged xs ys zs
      → record_set codec (map task_of zs)
        ≡ with_all (ids_of codec (map task_of xs)) (record_set codec (map task_of ys))
  unfolding with_all
  record_set-merged none_left = refl
  record_set-merged (from_first {r} {xs} {ys} {zs} m) =
      let found = id_of (codec.unmarshal (task_of r).payload) in
      record_set-cons (task_of r) (map task_of zs)
      ∙ (ap (with_all found) (record_set-merged m)
          ∙ sym (
              with_all-append found (ids_of codec (map task_of xs))
                (record_set codec (map task_of ys))))
  record_set-merged (from_second {r} {xs} {ys} {zs} m) =
      let found = id_of (codec.unmarshal (task_of r).payload) in
      let first = ids_of codec (map task_of xs) in
      record_set-cons (task_of r) (map task_of zs)
      ∙ (ap (with_all found) (record_set-merged m)
          ∙ (with_all_comm found first (record_set codec (map task_of ys))
              ∙ ap (with_all first) (sym (record_set-cons (task_of r) (map task_of ys)))))

module _ {E : Type 0} (codec : PayloadCodec) (runtime : Runtime E) (distributor : TaskDistributor E)
    (webhook : Webhook E) where
  pub round : Round → Exec E (Unit {0})
  round (of_check task) = check_archived_task codec runtime distributor webhook task
  round (of_shutdown task) = close_task codec distributor webhook task

  pub rounds : List Round → E → E
  rounds [] e = e
  rounds (r ∷ rs) e = rounds rs (round r e).1

  -- Each loop alone is the sequence of its rounds.
  pub check_archived_from-rounds :
      (tasks : List QueuedTask) (e : E)
      → (check_archived_from codec runtime distributor webhook tasks e).1
        ≡ rounds (map of_check tasks) e
  unfolding check_archived_from rounds round
  check_archived_from-rounds [] e = refl
  check_archived_from-rounds (task ∷ tasks) e = check_archived_from-rounds tasks _

  pub close_tasks-rounds :
      (tasks : List QueuedTask) (e : E)
      → (close_tasks codec distributor webhook tasks e).1 ≡ rounds (map of_shutdown tasks) e
  unfolding close_tasks rounds round
  close_tasks-rounds [] e = refl
  close_tasks-rounds (task ∷ tasks) e = close_tasks-rounds tasks _

  module _ (store : RecordStore webhook) (up : IsReachable webhook store)
      (alone : LeavesAlone store.copies runtime distributor) where
    open store use {copies}

    round_lem :
        (r : Round) (k : String) (e : E)
        → copies (round r e).1 k ≡ (
            if contains (id_of (codec.unmarshal (task_of r).payload)) k
            then failed_copies (copies e k)
            else copies e k)
    unfolding round check_archived_task close_task
    round_lem (of_check task) k e =
        check_payload_lem codec runtime distributor webhook store up alone task
          (codec.unmarshal task.payload) k e
    round_lem (of_shutdown task) k e =
        close_payload_lem codec runtime distributor webhook store up alone task
          (codec.unmarshal task.payload) k e

    pub rounds_lem :
        (rs : List Round) (k : String) (e : E)
        → copies (rounds rs e) k ≡ failed_in (record_set codec (map task_of rs)) (copies e) k
    unfolding rounds is_in with_all contains
    rounds_lem [] k e = refl
    rounds_lem (r ∷ rs) k e =
        let found = id_of (codec.unmarshal (task_of r).payload) in
        let e₁ = (round r e).1 in
        let rest = record_set codec (map task_of rs) in
        rounds_lem rs k e₁
        ∙ (failed_in-with_all found rest (copies e) (copies e₁) k (round_lem r k e)
            ∙ ap (λ s. failed_in s (copies e) k)
                (sym (record_set-cons codec (task_of r) (map task_of rs))))
