-- ===== src/Tests/Termination.antt =====
-- Tests of the end of the program.
use serving_agent.Common.{◌≡◌, refl, true, [], ◌∷◌, pure}
use serving_agent.Config.{Config}
use serving_agent.Worker.{TaskProcessor}
use serving_agent.Worker.Distributor.{give_up}
use serving_agent.Worker.Distributor.Shutdown.{closing}
use serving_agent.Main.{terminated, tstp}
use serving_agent.Main.Termination.{run_terminate, terminate-shared, terminate-local}
use serving_agent.Trace.{updates, deletions, stop_processor_call, shutdown_processor_call}
use serving_agent.Tests.Fixtures.{config, payload_codec, runtime, distributor, webhook, Empty}

abbrev processor : TaskProcessor Empty
processor = record { stop = pure tt; shutdown = pure tt }

abbrev local_config : Config
local_config = record config { use_local_redis = true }

terminate-shared_example :
    (run_terminate config payload_codec runtime distributor webhook processor
      (tstp terminated)
      tt).calls
    ≡ shutdown_processor_call ∷ stop_processor_call ∷ []
terminate-shared_example =
    terminate-shared config payload_codec runtime distributor webhook processor (tstp terminated) tt
      refl

terminate-local_example :
    let log =
      (run_terminate local_config payload_codec runtime distributor webhook processor terminated
        tt).calls in
    (updates log ≡ give_up "t1" closing ∷ []) × (deletions log ≡ ("critical", "q1") ∷ [])
terminate-local_example =
    terminate-local local_config payload_codec runtime distributor webhook processor terminated tt
      refl
