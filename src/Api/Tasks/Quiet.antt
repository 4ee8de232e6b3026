-- ===== src/Api/Tasks/Quiet.antt =====
-- The handlers for the queue and the rounds of the checks are quiet, over any services.
use serving_agent.Common.{String, refl, List, [], ◌∷◌, Result, ok, err, arith}
use serving_agent.Platform.{TaskInfo, Format, DocsRequest}
use serving_agent.Api.Predict.{docs}
use serving_agent.Worker.{PayloadCodec, Runtime, Metrics}
use serving_agent.Worker.Distributor.Quiet.{check_archived_tasks-Quietly, check_task_status-Quietly}
use serving_agent.Api.{Server, convert_error_code}
use serving_agent.Api.Queue.{ReplyCodec}
use serving_agent.Api.Tasks.{
  get_task, get_queue_size, pause_queue, unpause_queue, list_unfinished_tasks, delete_found,
  delete_pending, delete_listed, delete_all_pending_tasks, check_queue_size, periodic_check,
}
use serving_agent.Trace.{World}
use serving_agent.Trace.Quiet.{Quietly}
use serving_agent.Trace.Record.{recorded_server, recorded_runtime, recorded_metrics}

module _ {E : Type 0} (codec : ReplyCodec) (server : Server E) where
  abbrev s : Server (World E)
  s = recorded_server server

  pub get_task-Quietly : (bound : Result String) → Quietly (get_task codec s bound)
  unfolding get_task
  get_task-Quietly bound w q = ground arith

  pub get_queue_size-Quietly : Quietly (get_queue_size codec s)
  unfolding get_queue_size
  get_queue_size-Quietly w q = (refl, q)

  pub pause_queue-Quietly : Quietly (pause_queue codec s)
  unfolding pause_queue
  pause_queue-Quietly w q = ground arith

  pub unpause_queue-Quietly : Quietly (unpause_queue codec s)
  unfolding unpause_queue
  unpause_queue-Quietly w q = ground arith

  pub list_unfinished_tasks-Quietly : Quietly (list_unfinished_tasks codec s)
  unfolding list_unfinished_tasks
  list_unfinished_tasks-Quietly w q = ground arith

  pub docs-Quietly :
      (format : Format) (runtime : Runtime E) (bound : Result DocsRequest)
      → Quietly (docs format (recorded_runtime runtime) s bound)
  unfolding docs convert_error_code
  docs-Quietly format runtime bound w q = ground arith

  delete_found-Quietly : (found : Result TaskInfo) → Quietly (delete_found codec s found)
  unfolding delete_found
  delete_found-Quietly found w q = ground arith

  delete_pending-Quietly : (ids : List String) → Quietly (delete_pending codec s ids)
  unfolding delete_pending
  delete_pending-Quietly [] w q = q
  delete_pending-Quietly (id ∷ ids) w q =
      let (found, w₁) = s.webhook.get_task_info_object id w in
      delete_pending-Quietly ids _ (delete_found-Quietly found w₁ (refl, q))

  delete_listed-Quietly : (found : Result (List String)) → Quietly (delete_listed codec s found)
  unfolding delete_listed
  delete_listed-Quietly (err x) w q = q
  delete_listed-Quietly (ok ids) w q = delete_pending-Quietly ids w q

  pub delete_all_pending_tasks-Quietly : Quietly (delete_all_pending_tasks codec s)
  unfolding delete_all_pending_tasks
  delete_all_pending_tasks-Quietly w q =
      let (found, w₁) =
        s.webhook.get_task_id_by_model_status server.config.model_name "pending" w in
      delete_listed-Quietly found w₁ (refl, q)

module _ {E : Type 0} (codec : PayloadCodec) (runtime : Runtime E) (metrics : Metrics E)
    (server : Server E) where
  pub check_queue_size-Quietly : Quietly (
      check_queue_size codec
        (recorded_runtime runtime)
        (recorded_metrics metrics)
        (recorded_server server))
  unfolding check_queue_size
  check_queue_size-Quietly w q = (refl, (refl, (refl, q)))

  pub periodic_check-Quietly : Quietly (
      periodic_check codec
        (recorded_runtime runtime)
        (recorded_metrics metrics)
        (recorded_server server))
  unfolding periodic_check
  periodic_check-Quietly w q =
      let archived =
        check_archived_tasks-Quietly codec runtime server.distributor server.webhook w q in
      (
        refl,
        check_task_status-Quietly server.config runtime server.distributor server.webhook _
            archived,
      )
