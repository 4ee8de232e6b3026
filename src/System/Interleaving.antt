-- ===== src/System/Interleaving.antt =====
-- The laws hold at every moment of every trace of the program.
use serving_agent.Common.{List}
use serving_agent.Api.Router.{
  Endpoint, live, ready, metrics, pause, unpause, delete_pending, unfinished, predict_now,
  generate_now, docs_now, queue_size_now, predict_later, task, cancel, Bound, handle,
}
use serving_agent.Api.Predict.{docs}
use serving_agent.Api.Tasks.Quiet.{
  get_task-Quietly, get_queue_size-Quietly, pause_queue-Quietly, unpause_queue-Quietly,
  list_unfinished_tasks-Quietly, delete_all_pending_tasks-Quietly, check_queue_size-Quietly,
  periodic_check-Quietly, docs-Quietly,
}
use serving_agent.Main.Quiet.{terminate-Quietly}
use serving_agent.System
use serving_agent.System.{
  Law, needs, gives, count, IsBalanced, IsWoven, Services, Activity, request, measure, check,
  finish, run_activity, IsTrace, idle, beside,
}
use serving_agent.System.Balance.{quiet-IsBalanced, IsWoven-IsBalanced}
use serving_agent.System.Handlers.{
  predict-IsBalanced, generate-IsBalanced, async_predict-IsBalanced, cancel_task-IsBalanced,
  process-IsBalanced,
}
use serving_agent.Trace.{Call, start}

module _ {E : Type 0} (law : Law) (s : Services E) where
  open s use {format, payload_codec, reply_codec, runtime, server}

  request-IsBalanced :
      (endpoint : Endpoint) (bound : Bound) (e : E)
      → IsBalanced law (run_activity s (request endpoint bound) e).calls
  unfolding run_activity handle docs
  request-IsBalanced live bound e = tt
  request-IsBalanced ready bound e = tt
  request-IsBalanced metrics bound e = tt
  request-IsBalanced pause bound e =
      quiet-IsBalanced law _ (pause_queue-Quietly reply_codec server (start e) tt)
  request-IsBalanced unpause bound e =
      quiet-IsBalanced law _ (unpause_queue-Quietly reply_codec server (start e) tt)
  request-IsBalanced delete_pending bound e =
      quiet-IsBalanced law _ (delete_all_pending_tasks-Quietly reply_codec server (start e) tt)
  request-IsBalanced unfinished bound e =
      quiet-IsBalanced law _ (list_unfinished_tasks-Quietly reply_codec server (start e) tt)
  request-IsBalanced predict_now bound e =
      predict-IsBalanced format runtime server law bound.infer bound.uid e
  request-IsBalanced generate_now bound e =
      generate-IsBalanced format runtime server law bound.writer bound.infer bound.uid e
  request-IsBalanced docs_now bound e =
      quiet-IsBalanced law _
        (docs-Quietly reply_codec server format runtime bound.model (start e) tt)
  request-IsBalanced queue_size_now bound e =
      quiet-IsBalanced law _ (get_queue_size-Quietly reply_codec server (start e) tt)
  request-IsBalanced predict_later bound e =
      async_predict-IsBalanced reply_codec runtime server law bound.infer bound.uid e
  request-IsBalanced task bound e =
      quiet-IsBalanced law _ (get_task-Quietly reply_codec server bound.task_id (start e) tt)
  request-IsBalanced cancel bound e =
      cancel_task-IsBalanced reply_codec runtime server law bound.task_id e

  activity-IsBalanced : (a : Activity) (e : E) → IsBalanced law (run_activity s a e).calls
  unfolding run_activity
  activity-IsBalanced (request endpoint bound) e = request-IsBalanced endpoint bound e
  activity-IsBalanced (System.task bytes) e =
      process-IsBalanced format payload_codec server.webhook server.platform s.metrics law bytes e
  activity-IsBalanced measure e =
      quiet-IsBalanced law _
        (check_queue_size-Quietly payload_codec runtime s.metrics server (start e) tt)
  activity-IsBalanced check e =
      quiet-IsBalanced law _
        (periodic_check-Quietly payload_codec runtime s.metrics server (start e) tt)
  activity-IsBalanced (finish signals) e = quiet-IsBalanced law _ (
      terminate-Quietly server.config payload_codec runtime server.distributor server.webhook
        s.processor signals (start e) tt)

-- However many requests, queue tasks, rounds of the checks and ends of the program run at once,
-- over any services and interleaved in any way, at every moment of the trace: the predictions and
-- generations started are no more than the acknowledged writes of the status `running`; the
-- writes of `succeeded` are no more than the answers that the platform served; the writes of
-- `canceled` are no more than the acknowledged deletions of tasks; for every id, the tasks with
-- this id handed to the queue are no more than the acknowledged creations of a record with this
-- id; and for every nonempty queue id, the updates that store it are no more than the
-- acknowledgements by the queue that gave it.
pub trace-IsBalanced : {calls : List Call} (law : Law) → IsTrace calls → IsBalanced law calls
trace-IsBalanced law idle = tt
trace-IsBalanced law (beside s a e others woven) =
    IsWoven-IsBalanced law woven (trace-IsBalanced law others) (activity-IsBalanced law s a e)
