-- ===== src/Worker/Distributor/Listing.antt =====
-- What `ListUnfinishedTasks` returns, over any queue.
use mathlib.Core.List.{append-nil, append_assoc}
use serving_agent.Common.{String, ◌≡◌, refl, sym, ap, List, [], ◌∷◌, ◌++◌, ℤ, Result, ok, err}
use serving_agent.Config.{Config}
use serving_agent.Worker.{
  QueuedTask, ListKind, scheduled, pending, retry, active, Asynq, PayloadCodec,
}
use serving_agent.Worker.Distributor.{gather, tasks_or_none, list_tasks, list_unfinished_tasks}

gather-tasks_or_none :
    (tasks : List QueuedTask) (r : Result (List QueuedTask))
    → gather tasks r ≡ tasks ++ tasks_or_none r
gather-tasks_or_none tasks (err e) = sym (append-nil tasks)
gather-tasks_or_none tasks (ok more) = refl

-- The tasks of these listings, asked for in this order and with this page size; a listing that fails
-- has none.
abbrev pub listings : {W : Type 0} → Asynq W → String → ℤ → List ListKind → W → List QueuedTask
listings asynq queue page [] w = []
listings asynq queue page (kind ∷ kinds) w =
    let (answer, w') = asynq.list kind queue page w in
    tasks_or_none answer ++ listings asynq queue page kinds w'

abbrev pub unfinished_kinds : List ListKind
unfinished_kinds = scheduled ∷ pending ∷ retry ∷ active ∷ []

gathered :
    (a b c d : Result (List QueuedTask))
    → gather (gather (gather (gather [] a) b) c) d
      ≡ tasks_or_none a ++ (tasks_or_none b ++ (tasks_or_none c ++ (tasks_or_none d ++ [])))
gathered a b c d =
    rw
      (
        gather-tasks_or_none (gather (gather (gather [] a) b) c) d,
        gather-tasks_or_none (gather (gather [] a) b) c,
        gather-tasks_or_none (gather [] a) b,
        gather-tasks_or_none [] a,
        append-nil (tasks_or_none d),
        append_assoc (tasks_or_none a ++ tasks_or_none b) (tasks_or_none c) (tasks_or_none d),
        append_assoc (tasks_or_none a) (tasks_or_none b) (tasks_or_none c ++ tasks_or_none d),
      )
      refl

-- The list of the unfinished tasks is never an error, and consists of the scheduled, the pending,
-- the retried and the active tasks, one after the other and each up to the configured page size,
-- where a listing that failed adds none.
pub list_unfinished_tasks-listings :
    {W : Type 0} (config : Config) (codec : PayloadCodec) (asynq : Asynq W) (queue : String) (w : W)
    → (list_unfinished_tasks config codec asynq queue w).0
      ≡ ok (listings asynq queue config.max_queue_size unfinished_kinds w)
unfolding list_unfinished_tasks list_tasks
list_unfinished_tasks-listings config codec asynq queue w =
    let ask = λ (kind : ListKind). asynq.list kind queue config.max_queue_size in
    let (a, w₁) = ask scheduled w in
    let (b, w₂) = ask pending w₁ in
    let (c, w₃) = ask retry w₂ in let (d, w₄) = ask active w₃ in ap ok (gathered a b c d)
