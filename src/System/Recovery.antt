-- ===== src/System/Recovery.antt =====
-- A prediction that was accepted is brought to an end, whatever fails on the way.
use serving_agent.Common.{ℕ, String, ◌≡◌, List}
use serving_agent.Platform.{Format, Webhook}
use serving_agent.Worker.{PayloadCodec, Runtime, Metrics, QueuedTask, TaskDistributor}
use serving_agent.Worker.Predict.{done, TaskResult}
use serving_agent.Worker.Processor.Attempts.{IsAttempted}
use serving_agent.Worker.Distributor.{check_archived_tasks}
use serving_agent.Worker.Distributor.Archived.{IsListed}
use serving_agent.Api.{Server}
use serving_agent.Api.Queue.{ReplyCodec, task_options}
use serving_agent.Trace.{World}
use serving_agent.Trace.Record.{recorded_webhook, recorded_distributor, recorded_runtime}

-- What is documented of asynq: a task whose last run was not done is kept in the archive. Here it is
-- also on the page of the archive that the check lists.
abbrev pub IsKept : String → TaskResult → List QueuedTask → Type 0
IsKept bytes done archive = Unit
IsKept bytes _ archive = (task : QueuedTask) × IsListed task archive × (task.payload ≡ bytes)

-- The first half is the program as it accepts and runs the task; `checker`, `clock` and `queue` are
-- the webhook service, the clock and the queue as they are when the archive is checked.
module _ {E : Type 0} (format : Format) (codec : PayloadCodec) (reply_codec : ReplyCodec)
    (runtime : Runtime E) (metrics : Metrics E) (server : Server E) (checker : Webhook E)
    (clock : Runtime E) (queue : TaskDistributor E) where
  abbrev pub run_check : World E → World E
  run_check w =
      (check_archived_tasks codec (recorded_runtime clock) (recorded_distributor queue)
        (recorded_webhook checker) w).1

  -- The runs of a task that was accepted.
  abbrev pub IsRunLater : String → ℕ → World E → TaskResult × World E → Type 0
  IsRunLater bytes backs w end =
      IsAttempted format codec server.webhook server.platform metrics bytes
        (task_options reply_codec runtime server).max_retry backs w end
