-- ===== src/Worker/Distributor/Careful.antt =====
-- What it is to give records up with care, in terms of the calls.
use serving_agent.Common.{
  ℕ, ◌+◌, ◌≤◌, String, Bool, not, ◌&&◌, true, false, ◌≡◌, ◌⊎◌, List, [], ◌∷◌, arith, ok, err,
  length, contains, map, str_eq, eq_iff,
}
use serving_agent.Platform.{TaskInfo}
use serving_agent.Worker.{QueuedTask}
use serving_agent.Worker.Distributor.{give_up, ids_or_none, tasks_or_none}
use serving_agent.Trace.{
  World, Call, updates, update_call, by_status_call, get_object_call, list_unfinished_call,
}

abbrev pub unknown_failure : String
unknown_failure = "Unknown failure"

-- The record is one that the checks look at: pending or running.
abbrev pub IsOpen : String → Type 0
IsOpen status = (status ≡ "pending") ⊎ (status ≡ "running")

-- The ids of the unfinished tasks, as last listed.
abbrev pub unfinished_of : List Call → List String
unfinished_of [] = []
unfinished_of (list_unfinished_call _ answer ∷ cs) =
    map (λ (t : QueuedTask). t.id) (tasks_or_none answer)
unfinished_of (_ ∷ cs) = unfinished_of cs

-- Each update comes right after the record was read: if it was found, it was still open and its task
-- was not among the unfinished ones, and if it was not, only the database is told.
abbrev pub Careful : List Call → Type 0
Careful [] = Unit
Careful (update_call u _ ∷ get_object_call id (ok task) ∷ cs) =
    (u ≡ give_up id unknown_failure)
    × IsOpen task.status
    × (contains (unfinished_of cs) task.queue_id ≡ false)
    × Careful cs
Careful (update_call u _ ∷ get_object_call id (err _) ∷ cs) =
    (u ≡ record (give_up id unknown_failure) { database_only = true }) × Careful cs
Careful (update_call _ _ ∷ _) = ⊥
Careful (_ ∷ cs) = Careful cs

-- The test of the code on a record that was found.
abbrev pub is_lost : List Call → String → TaskInfo → Bool
is_lost cs status task =
    not (contains (unfinished_of cs) task.queue_id) && str_eq task.status status

pub is_lost_iff :
    (cs : List Call) (status : String) (task : TaskInfo)
    → is_lost cs status task ≡ true
    → (contains (unfinished_of cs) task.queue_id ≡ false) × (task.status ≡ status)
is_lost_iff cs status task h = ground (arith, eq_iff task.status status)

pub is_lost-IsOpen :
    (cs : List Call) (status : String) (task : TaskInfo)
    → IsOpen status
    → is_lost cs status task ≡ true
    → IsOpen task.status
is_lost-IsOpen cs status task lost h = rw (is_lost_iff cs status task h).1 lost

-- The records that the webhook named as pending or running.
abbrev pub num_named : List Call → ℕ
num_named [] = 0
num_named (by_status_call _ _ answer ∷ cs) = length (ids_or_none answer) + num_named cs
num_named (_ ∷ cs) = num_named cs

-- What the check comes to: careful updates, as many as it reports and no more than were named.
abbrev pub Reported : {E : Type 0} → ℕ × World E → Type 0
Reported (n, w) = Careful w.calls × (n ≡ length (updates w.calls)) × (n ≤ num_named w.calls)
