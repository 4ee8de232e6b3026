-- ===== src/Tests/Settings.antt =====
-- Tests of the settings.
use native.Mathlib.Omega.{arith}
use serving_agent.Common.{◌≡◌, refl}
use serving_agent.Api.Queue.{task_options}
use serving_agent.Worker.Processor.{new_redis_task_processor}
use serving_agent.Main.Deadlines.{AreTimely, request_timeouts, pre_check-AreTimely}
use serving_agent.Tests.Fixtures.{config, server, reply_codec, runtime}

pre_check-AreTimely_example :
    AreTimely (task_options reply_codec runtime server).timeout (request_timeouts config)
    × ((new_redis_task_processor config).server.shutdown_timeout
        ≡ (task_options reply_codec runtime server).timeout)
pre_check-AreTimely_example =
    pre_check-AreTimely reply_codec runtime server refl
      (omega arith, (omega arith, (omega arith, (omega arith, (omega arith, tt)))))
