-- ===== src/Api/Queue/Runs.antt =====
-- What becomes of a task with the options of `asyncPredict`, however often asynq runs it.
use serving_agent.Common.{ℕ, String}
use serving_agent.Platform.{Format}
use serving_agent.Worker.{PayloadCodec, Runtime, Metrics}
use serving_agent.Worker.Predict.{TaskResult}
use serving_agent.Worker.Processor.Attempts.{IsAttempted}
use serving_agent.Api.{Server}
use serving_agent.Api.Queue.{ReplyCodec, task_options}
use serving_agent.Trace.{World, start}

module _ {E : Type 0} (format : Format) (codec : PayloadCodec) (metrics : Metrics E)
    (reply_codec : ReplyCodec) (runtime : Runtime E) (server : Server E) where
  -- The runs of a task from a fresh trace.
  abbrev pub IsRun : String → ℕ → E → TaskResult × World E → Type 0
  IsRun bytes backs e end =
      IsAttempted format codec server.webhook server.platform metrics bytes
        (task_options reply_codec runtime server).max_retry backs (start e) end
