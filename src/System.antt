-- ===== src/System.antt =====
-- The agent as a whole: handlers, workers, checks and the end of the program, all at once. main.go
-- starts them as goroutines, gin one for each request, and asynq one for each task; they meet in the
-- webhook service and in the queue, whose answers are arbitrary.
pub mod Balance
pub mod Handlers
pub mod Interleaving
pub mod Lifecycle
pub mod Network
pub mod Recovery
pub mod Store
use serving_agent.Common.{
  ℕ, zero, suc, ◌≤◌, String, Bool, true, false, ◌&&◌, ◌||◌, not, List, [], ◌∷◌, ok, err, str_eq,
  Exec, Result, if◌then◌else◌,
}
use serving_agent.Platform.{Format, Platform, Webhook, served}
use serving_agent.Config.{Config}
use serving_agent.Worker.{
  PayloadCodec, Runtime, TaskDistributor, TaskProcessor, Metrics, queue_critical,
}
use serving_agent.Worker.Predict.{process_task_run_prediction}
use serving_agent.Api.{Server, Reply}
use serving_agent.Api.Queue.{ReplyCodec}
use serving_agent.Api.Router.{Endpoint, Bound, handle}
use serving_agent.Api.Tasks.{check_queue_size, periodic_check}
use serving_agent.Main.{Signals, terminate}
use serving_agent.Trace.{
  Call, create_call, update_call, predict_call, generate_call, enqueue_call, delete_call, World,
  start,
}
use serving_agent.Trace.Record.{
  recorded_webhook, recorded_platform, recorded_distributor, recorded_runtime, recorded_processor,
  recorded_metrics, recorded_server, unnoted,
}

-- Laws of the form: each call of one kind is paid for by an earlier call of another kind.
pub data Law : Type 0 where
  run_as_running : Law
  success_from_platform : Law
  cancel_after_deletion : Law
  enqueue_after_creation : String → Law
  link_after_enqueue : String → Law

-- The calls that a law asks to be paid for.
abbrev pub needs : Law → Call → Bool
needs run_as_running (predict_call _ _ _) = true
needs run_as_running (generate_call _ _ _) = true
needs success_from_platform (update_call u _) = str_eq u.status "succeeded"
needs cancel_after_deletion (update_call u _) = str_eq u.status "canceled"
needs (enqueue_after_creation id) (enqueue_call p _ _) = str_eq p.id id
needs (link_after_enqueue t) (update_call u _) = str_eq u.queue_id t && not (str_eq t "")
needs _ _ = false

-- The calls that pay, by what was acknowledged.
abbrev pub gives : Law → Call → Bool
gives run_as_running (create_call _ status (ok _)) = str_eq status "running"
gives run_as_running (update_call u (ok _)) = str_eq u.status "running"
gives success_from_platform (predict_call _ _ (served _)) = true
gives success_from_platform (generate_call _ _ (served _)) = true
gives cancel_after_deletion (delete_call _ _ (ok _)) = true
gives (enqueue_after_creation id) (create_call k _ (ok _)) = str_eq k id
gives (link_after_enqueue t) (enqueue_call _ _ (ok s)) = str_eq s t
gives _ _ = false

abbrev pub tally : Bool → ℕ → ℕ
tally b n = if b then suc n else n

abbrev pub count : (Call → Bool) → List Call → ℕ
count p [] = 0
count p (c ∷ cs) = tally (p c) (count p cs)

-- At every moment of the trace, which is newest first, the calls in need are no more than those that
-- pay.
abbrev pub IsBalanced : Law → List Call → Type 0
IsBalanced law [] = Unit
IsBalanced law (c ∷ cs) =
    (count (needs law) (c ∷ cs) ≤ count (gives law) (c ∷ cs)) × IsBalanced law cs

-- The calls of two activities, in some order that keeps each one's own order.
pub data IsWoven : List Call → List Call → List Call → Type 0 where
  none_left : IsWoven [] [] []
  from_first : {c : Call} {xs ys zs : List Call} → IsWoven xs ys zs → IsWoven (c ∷ xs) ys (c ∷ zs)
  from_second : {c : Call} {xs ys zs : List Call} → IsWoven xs ys zs → IsWoven xs (c ∷ ys) (c ∷ zs)

-- The services that the activities of the program use; `exposition` is promhttp's handler.
pub record Services (E : Type 0) : Type 0 where
  pub format : Format
  pub payload_codec : PayloadCodec
  pub reply_codec : ReplyCodec
  pub runtime : Runtime E
  pub metrics : Metrics E
  pub processor : TaskProcessor E
  pub server : Server E
  pub exposition : Exec E Reply

-- What one goroutine does: a request, a task of the queue, a round of a check, the program's end.
pub data Activity : Type 0 where
  request : Endpoint → Bound → Activity
  task : String → Activity
  measure : Activity
  check : Activity
  finish : Signals → Activity

module _ {E : Type 0} (s : Services E) where
  open s use {format, payload_codec, reply_codec, runtime, metrics, processor, server, exposition}

  -- The world after an activity that began in a fresh one.
  pub run_activity : Activity → E → World E
  run_activity (request endpoint bound) e =
      (handle format reply_codec (recorded_runtime runtime) (unnoted exposition)
        (recorded_server server) endpoint bound (start e)).1
  run_activity (task bytes) e =
      (process_task_run_prediction format payload_codec (recorded_webhook server.webhook)
        (recorded_platform server.platform) (recorded_metrics metrics) bytes (start e)).1
  run_activity measure e =
      (check_queue_size payload_codec (recorded_runtime runtime) (recorded_metrics metrics)
        (recorded_server server) (start e)).1
  run_activity check e =
      (periodic_check payload_codec (recorded_runtime runtime) (recorded_metrics metrics)
        (recorded_server server) (start e)).1
  run_activity (finish signals) e =
      (terminate server.config payload_codec (recorded_runtime runtime)
        (recorded_distributor server.distributor) (recorded_webhook server.webhook)
        (recorded_processor processor) signals (start e)).1

-- The traces of the program: its activities, begun at any time and interleaved in any way. Each sees
-- the services through a world of its own, since the others change what they answer.
pub data IsTrace : List Call → Type 1 where
  idle : IsTrace []
  beside :
      {E : Type 0} {xs zs : List Call} (s : Services E) (a : Activity) (e : E)
      → IsTrace xs
      → IsWoven xs (run_activity s a e).calls zs
      → IsTrace zs
