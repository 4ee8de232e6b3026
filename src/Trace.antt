-- ===== src/Trace.antt =====
-- Not code: a world that records, newest first, what the agent calls and what each call returned.
-- The services over a world `E` are arbitrary; recording them changes no answer.
pub mod Record
pub mod Quiet
pub mod Protocol
use serving_agent.Common.{
  ℕ, suc, ◌+◌, ◌≡◌, ◌⊎◌, ◌&&◌, ◌||◌, Bool, true, false, String, Option, none, some, List, [], ◌∷◌,
  ℤ, Exec, Result, ok, err, str_eq, if◌then◌else◌,
}
use serving_agent.Platform.{InferRequest, InferResponse, UpdateRequest, Served, Json, TaskInfo}
use serving_agent.Host.{HostCall}
use serving_agent.Worker.{PayloadRunPrediction, TaskOptions, QueuedTask, QueueInfo, ListKind}

pub data Call : Type 0 where
  create_call : String → String → Result String → Call
  update_call : UpdateRequest → Result (Unit {0}) → Call
  get_call : String → Result Json → Call
  get_object_call : String → Result TaskInfo → Call
  by_status_call : String → String → Result (List String) → Call
  predict_call : InferRequest → String → Served InferResponse → Call
  generate_call : InferRequest → String → Served (Unit {0}) → Call
  docs_call : String → Served Json → Call
  enqueue_call : PayloadRunPrediction → TaskOptions → Result String → Call
  queue_info_call : String → Result QueueInfo → Call
  delete_call : String → String → Result (Unit {0}) → Call
  list_call : ListKind → String → Result (List QueuedTask) → Call
  list_unfinished_call : String → Result (List QueuedTask) → Call
  pause_call : String → Result (Unit {0}) → Call
  unpause_call : String → Result (Unit {0}) → Call
  metric_call : Call
  sleep_call : ℤ → Call
  now_call : ℕ → Call
  stop_processor_call : Call
  shutdown_processor_call : Call
  host_call : HostCall → Call

pub record World (E : Type 0) : Type 0 where
  pub env : E
  pub calls : List Call

abbrev pub start : {E : Type 0} → E → World E
start e = record { env = e; calls = [] }

-- The status that record `id` has after the acknowledged writes among the calls, if any was
-- acknowledged. An update with an empty status leaves the status alone.
abbrev pub status_of : String → List Call → Option String
status_of id [] = none
status_of id (create_call k status (ok _) ∷ cs) =
    if str_eq k id then some status else status_of id cs
status_of id (update_call u (ok _) ∷ cs) =
    let before = status_of id cs in
    if str_eq u.id id then (if str_eq u.status "" then before else some u.status) else before
status_of id (_ ∷ cs) = status_of id cs

-- The platform's predictions among the calls.
abbrev pub num_predictions : List Call → ℕ
num_predictions [] = 0
num_predictions (predict_call _ _ _ ∷ cs) = 1 + num_predictions cs
num_predictions (_ ∷ cs) = num_predictions cs

-- Each prediction was made while record `id` was marked as running.
abbrev pub PredictsRunning : String → List Call → Type 0
PredictsRunning id [] = Unit
PredictsRunning id (predict_call _ _ _ ∷ cs) =
    (status_of id cs ≡ some "running") × PredictsRunning id cs
PredictsRunning id (_ ∷ cs) = PredictsRunning id cs

-- The status is one from which the code moves no further.
abbrev pub IsTerminal : Option String → Type 0
IsTerminal s = (s ≡ some "succeeded") ⊎ (s ≡ some "failed")

-- The newest call is an update of record `id` that the webhook did not acknowledge.
abbrev pub UpdateLost : String → List Call → Type 0
UpdateLost id (update_call u (err e) ∷ cs) = u.id ≡ id
UpdateLost id _ = ⊥

-- The writes of a terminal status to record `id`, acknowledged or not, among the calls.
abbrev pub num_final_writes : String → List Call → ℕ
num_final_writes id [] = 0
num_final_writes id (update_call u _ ∷ cs) =
    let before = num_final_writes id cs in
    if str_eq u.id id && (str_eq u.status "succeeded" || str_eq u.status "failed")
    then suc before
    else before
num_final_writes id (_ ∷ cs) = num_final_writes id cs

-- A record was created, and the webhook acknowledged it.
abbrev pub created : List Call → Bool
created [] = false
created (create_call _ _ (ok _) ∷ cs) = true
created (_ ∷ cs) = created cs

-- The updates that were sent to the webhook, newest first.
abbrev pub updates : List Call → List UpdateRequest
updates [] = []
updates (update_call u _ ∷ cs) = u ∷ updates cs
updates (_ ∷ cs) = updates cs

-- The queue and the id of each task whose deletion was asked for, newest first.
abbrev pub deletions : List Call → List (String × String)
deletions [] = []
deletions (delete_call q id _ ∷ cs) = (q, id) ∷ deletions cs
deletions (_ ∷ cs) = deletions cs

-- What was asked of Go itself.
abbrev pub hosted : List Call → List HostCall
hosted [] = []
hosted (host_call c ∷ cs) = c ∷ hosted cs
hosted (_ ∷ cs) = hosted cs
