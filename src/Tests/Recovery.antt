-- ===== src/Tests/Recovery.antt =====
-- A task whose two runs end in an error, because the webhook service does not acknowledge their last
-- update, and which the check of the archive brings to an end.
use serving_agent.Common.{ok}
use serving_agent.Worker.Predict.{TaskResult}
use serving_agent.Worker.Predict.Settles.{process_in}
use serving_agent.Api.{Server}
use serving_agent.Api.Queue.Admission.{run_async}
use serving_agent.Trace.{World}
use serving_agent.Tests.Delivery.{forgetful}
use serving_agent.Tests.System.{codec}
use serving_agent.Tests.Fixtures.{
  Empty, format, request, platform, metrics, runtime, webhook, server, reply_codec,
}

abbrev forgetful_server : Server Empty
forgetful_server = record server { webhook = forgetful }

abbrev once : World Empty → TaskResult × World Empty
once w = process_in format codec forgetful platform metrics "task" w

abbrev accepted : World Empty
accepted = (run_async reply_codec runtime forgetful_server (ok request) "u" tt).1

abbrev twice : TaskResult × World Empty
twice = once (once accepted).1
