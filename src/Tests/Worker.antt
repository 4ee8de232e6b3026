-- ===== src/Tests/Worker.antt =====
-- Tests of the worker.
use serving_agent.Common.{◌≡◌, refl, [], ◌∷◌}
use serving_agent.Worker.Predict.{done, process_task_run_prediction}
use serving_agent.Worker.Predict.Settles.{run_process, Settled, process-Settled}
use serving_agent.Worker.Predict.Protocol.{EndsIn, process-Refines}
use serving_agent.Trace.Protocol.{phase_of, Conforms}
use serving_agent.Worker.Distributor.Archived.{
  Justified, system_errors, run_archived, check_archived_tasks_careful,
}
use serving_agent.Worker.Distributor.Notices.{notices}
use serving_agent.Worker.Distributor.Shutdown.{
  run_shutdown, unfinished, closing, shutdown_gives_up_all,
}
use serving_agent.Worker.Distributor.Careful.{Reported}
use serving_agent.Worker.Distributor.Status.{run_status, check_task_status-Reported}
use mathlib.Core.List.{reverse}
use serving_agent.Worker.Distributor.{give_up}
use serving_agent.Trace.{updates, deletions}
use serving_agent.Tests.Fixtures.{
  format, request, payload_codec, payload, webhook, platform, metrics, runtime, distributor, config,
  queued,
}

process-Settled_example :
    Settled "t1" done (run_process format payload_codec webhook platform metrics "task" tt).1.calls
unfolding process_task_run_prediction
process-Settled_example =
    process-Settled format payload_codec webhook platform metrics "task" payload tt refl

process-Refines_example :
    let calls = (run_process format payload_codec webhook platform metrics "task" tt).1.calls in
    EndsIn done (phase_of format "t1" request "v1" calls) × Conforms format "t1" request "v1" calls
unfolding process_task_run_prediction
process-Refines_example =
    process-Refines format payload_codec webhook platform metrics "task" payload tt refl

shutdown_gives_up_all_example :
    let log = (run_shutdown payload_codec distributor webhook tt).calls in
    (updates log
      ≡ reverse (notices payload_codec closing (unfinished payload_codec distributor webhook tt)))
    × (deletions log ≡ ("critical", "q1") ∷ [])
shutdown_gives_up_all_example = shutdown_gives_up_all payload_codec distributor webhook tt

check_archived_tasks_careful_example :
    let log = (run_archived payload_codec runtime distributor webhook tt).calls in
    (updates log ≡ give_up "t1" system_errors ∷ []) × Justified payload_codec (queued ∷ []) log
check_archived_tasks_careful_example =
    check_archived_tasks_careful payload_codec runtime distributor webhook tt

check_task_status-Reported_example : Reported (run_status config runtime distributor webhook tt)
check_task_status-Reported_example =
    check_task_status-Reported config runtime distributor webhook tt
