-- ===== src/Worker/Distributor/Notices.antt =====
-- Not code: what the loops over queued tasks are to write and delete, as functions of the tasks.
use mathlib.Core.List.{reverse_aux}
use serving_agent.Common.{String, ◌≡◌, refl, List, [], ◌∷◌, Result, ok, err}
use serving_agent.Platform.{UpdateRequest}
use serving_agent.Worker.{PayloadCodec, PayloadRunPrediction, QueuedTask}
use serving_agent.Worker.Distributor.{give_up}

abbrev pub notice : String → Result PayloadRunPrediction → List UpdateRequest → List UpdateRequest
notice why (err _) us = us
notice why (ok payload) us = give_up payload.id why ∷ us

-- One update for each task whose payload can be read, in the order of the tasks.
abbrev pub notices : PayloadCodec → String → List QueuedTask → List UpdateRequest
notices codec why [] = []
notices codec why (task ∷ tasks) =
    notice why (codec.unmarshal task.payload) (notices codec why tasks)

abbrev pub dropped :
    Result PayloadRunPrediction → QueuedTask → List (String × String) → List (String × String)
dropped (err _) task ds = ds
dropped (ok _) task ds = (task.queue, task.id) ∷ ds

-- One deletion for each such task.
abbrev pub drops : PayloadCodec → List QueuedTask → List (String × String)
drops codec [] = []
drops codec (task ∷ tasks) = dropped (codec.unmarshal task.payload) task (drops codec tasks)

pub reverse_aux-notice :
    (why : String) (r : Result PayloadRunPrediction) (us vs : List UpdateRequest)
    → reverse_aux (notice why r us) vs ≡ reverse_aux us (notice why r vs)
reverse_aux-notice why (ok p) us vs = refl
reverse_aux-notice why (err e) us vs = refl

pub reverse_aux-dropped :
    (r : Result PayloadRunPrediction) (task : QueuedTask) (ds es : List (String × String))
    → reverse_aux (dropped r task ds) es ≡ reverse_aux ds (dropped r task es)
reverse_aux-dropped (ok p) task ds es = refl
reverse_aux-dropped (err e) task ds es = refl
