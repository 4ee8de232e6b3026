-- ===== src/Trace/Quiet.antt =====
-- Activities that leave predictions and the queue's contents alone, and of the records change only
-- those that they give up. `Quietly` is kept by the parts of a do block.
use serving_agent.Common.{Bool, true, false, ◌&&◌, ◌≡◌, List, All, Exec, str_eq}
use serving_agent.Trace.{Call, World, predict_call, generate_call, enqueue_call, update_call}

-- A call of one of the checks: no prediction, nothing put into the queue, and of updates only those
-- that mark a record as failed and nothing else.
abbrev pub is_quiet : Call → Bool
is_quiet (predict_call _ _ _) = false
is_quiet (generate_call _ _ _) = false
is_quiet (enqueue_call _ _ _) = false
is_quiet (update_call u _) = str_eq u.status "failed" && str_eq u.queue_id ""
is_quiet _ = true

abbrev pub AllQuiet : List Call → Type 0
AllQuiet = All (λ c. is_quiet c ≡ true)

module _ {E : Type 0} where
  -- Whatever was recorded before, the activity adds only quiet calls.
  abbrev pub Quietly : {A : Type 0} → Exec (World E) A → Type 0
  Quietly m = (w : World E) → AllQuiet w.calls → AllQuiet (m w).1.calls
