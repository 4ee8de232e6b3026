-- ===== src/System/Handlers.antt =====
-- The prediction handlers, the worker and the cancellation are balanced, over any services.
use serving_agent.Common.{String, arith, eq_iff, Result}
use serving_agent.Platform.{InferRequest, Platform, Webhook, Format}
use serving_agent.Worker.{PayloadCodec, Runtime, Metrics}
use serving_agent.Worker.Predict.{process_task_run_prediction, succeeded_update, failed_update}
use serving_agent.Api.{ResponseWriter, Server, convert_error_code}
use serving_agent.Api.Predict.{predict, generate}
use serving_agent.Api.Queue.{ReplyCodec, async_predict}
use serving_agent.Api.Tasks.{cancel_task}
use serving_agent.System.{
  Law, run_as_running, success_from_platform, cancel_after_deletion, enqueue_after_creation,
  link_after_enqueue, IsBalanced,
}
use serving_agent.Trace.{World, start}
use serving_agent.Trace.Record.{
  recorded_runtime, recorded_server, recorded_webhook, recorded_platform, recorded_metrics,
}

module _ {E : Type 0} (format : Format) (runtime : Runtime E) (server : Server E) where
  abbrev s : Server (World E)
  s = recorded_server server

  abbrev r : Runtime (World E)
  r = recorded_runtime runtime

  pub predict-IsBalanced :
      (law : Law) (bound : Result InferRequest) (uid : String) (e : E)
      → IsBalanced law (predict format r s bound uid (start e)).1.calls
  unfolding predict succeeded_update failed_update convert_error_code
  predict-IsBalanced run_as_running bound uid e = ground arith
  predict-IsBalanced success_from_platform bound uid e = ground arith
  predict-IsBalanced cancel_after_deletion bound uid e = ground arith
  predict-IsBalanced (enqueue_after_creation id) bound uid e = ground arith
  predict-IsBalanced (link_after_enqueue t) bound uid e = ground (arith, eq_iff "" t, eq_iff t "")

  pub generate-IsBalanced :
      (law : Law) (writer : ResponseWriter) (bound : Result InferRequest) (uid : String) (e : E)
      → IsBalanced law (generate format r s writer bound uid (start e)).1.calls
  unfolding generate succeeded_update failed_update convert_error_code
  generate-IsBalanced run_as_running writer bound uid e = ground arith
  generate-IsBalanced success_from_platform writer bound uid e = ground arith
  generate-IsBalanced cancel_after_deletion writer bound uid e = ground arith
  generate-IsBalanced (enqueue_after_creation id) writer bound uid e = ground arith
  generate-IsBalanced (link_after_enqueue t) writer bound uid e =
      ground (arith, eq_iff "" t, eq_iff t "")

module _ {E : Type 0} (codec : ReplyCodec) (runtime : Runtime E) (server : Server E) where
  pub async_predict-IsBalanced :
      (law : Law) (bound : Result InferRequest) (uid : String) (e : E)
      → IsBalanced law
          (async_predict codec
            (recorded_runtime runtime)
            (recorded_server server)
            bound
            uid
            (start e)).1.calls
  unfolding async_predict failed_update
  async_predict-IsBalanced run_as_running bound uid e = ground arith
  async_predict-IsBalanced success_from_platform bound uid e = ground arith
  async_predict-IsBalanced cancel_after_deletion bound uid e = ground arith
  async_predict-IsBalanced (enqueue_after_creation id) bound uid e = ground arith
  async_predict-IsBalanced (link_after_enqueue t) bound uid e =
      ground (arith, eq_iff "" t, eq_iff t "")

  pub cancel_task-IsBalanced :
      (law : Law) (bound : Result String) (e : E)
      → IsBalanced law (cancel_task codec (recorded_server server) bound (start e)).1.calls
  unfolding cancel_task
  cancel_task-IsBalanced run_as_running bound e = ground arith
  cancel_task-IsBalanced success_from_platform bound e = ground arith
  cancel_task-IsBalanced cancel_after_deletion bound e = ground arith
  cancel_task-IsBalanced (enqueue_after_creation id) bound e = ground arith
  cancel_task-IsBalanced (link_after_enqueue t) bound e = ground (arith, eq_iff "" t, eq_iff t "")

module _ {E : Type 0} (format : Format) (codec : PayloadCodec) (webhook : Webhook E)
    (platform : Platform E) (metrics : Metrics E) where
  pub process-IsBalanced :
      (law : Law) (bytes : String) (e : E)
      → IsBalanced law
          (process_task_run_prediction format codec
            (recorded_webhook webhook)
            (recorded_platform platform)
            (recorded_metrics metrics)
            bytes
            (start e)).1.calls
  unfolding process_task_run_prediction succeeded_update failed_update
  process-IsBalanced run_as_running bytes e = ground arith
  process-IsBalanced success_from_platform bytes e = ground arith
  process-IsBalanced cancel_after_deletion bytes e = ground arith
  process-IsBalanced (enqueue_after_creation id) bytes e = ground arith
  process-IsBalanced (link_after_enqueue t) bytes e = ground (arith, eq_iff "" t, eq_iff t "")
