-- ===== src/System/Lifecycle.antt =====
-- A prediction from its acceptance by `asyncPredict` to its end in the worker.
use serving_agent.Common.{String, ◌≡◌, Option, none, some, List, [], ◌∷◌, arith, eq_iff, Result, ok}
use serving_agent.Platform.{Format, InferRequest}
use serving_agent.Worker.{PayloadCodec, PayloadRunPrediction, Runtime, Metrics}
use serving_agent.Worker.Predict.{done, failed_update}
use serving_agent.Worker.Predict.Settles.{process_in}
use serving_agent.Worker.Predict.Completes.{Acknowledges, Returns, process_in-completes}
use serving_agent.Api.{Server, status}
use serving_agent.Api.Queue.{ReplyCodec, async_predict}
use serving_agent.Api.Queue.Admission.{run_async}
use serving_agent.Trace.{Call, enqueue_call, IsTerminal, status_of, num_predictions}

-- The payload of the last task that the queue took.
abbrev pub handed_over : List Call → Option PayloadRunPrediction
handed_over [] = none
handed_over (enqueue_call p _ (ok _) ∷ cs) = some p
handed_over (_ ∷ cs) = handed_over cs

module _ {E : Type 0} (format : Format) (codec : PayloadCodec) (reply_codec : ReplyCodec)
    (runtime : Runtime E) (metrics : Metrics E) (server : Server E) where
  abbrev id_of : E → String
  id_of e = (runtime.new_uuid e).0

  -- An accepted prediction waits: its record has no status, the platform was not asked, and the
  -- task carries the record's id.
  pub accepted-waits :
      (bound : Result InferRequest) (uid : String) (e : E) (payload : PayloadRunPrediction)
      → let (reply, w) = run_async reply_codec runtime server bound uid e in
        status reply ≡ 200
        → handed_over w.calls ≡ some payload
        → (payload.id ≡ id_of e)
          × (status_of (id_of e) w.calls ≡ some "")
          × (num_predictions w.calls ≡ 0)
  unfolding async_predict failed_update
  accepted-waits bound uid e payload accepted handed = ground (arith, eq_iff (id_of e) (id_of e))

  -- If an asynchronous prediction is answered with 200, the worker can read the payload of the
  -- task that the queue then took, the webhook acknowledges every update and no prediction of the
  -- platform panics, then before the worker runs, the record with the fresh id has the empty
  -- status; and the worker's run, whatever happened to the services in between, reports the task
  -- as done, leaves `succeeded` or `failed` as the last acknowledged status of that record, and
  -- is the first and only time that the platform is asked.
  pub accepted-completes :
      (bound : Result InferRequest) (uid : String) (e later : E) (payload : PayloadRunPrediction)
      (bytes : String)
      → let (reply, w) = run_async reply_codec runtime server bound uid e in
        status reply ≡ 200
        → handed_over w.calls ≡ some payload
        → codec.unmarshal bytes ≡ ok payload
        → Acknowledges server.webhook
        → Returns server.platform
        → let (r, w') =
            process_in format codec server.webhook server.platform metrics bytes
              (record w { env = later }) in
          (status_of (id_of e) w.calls ≡ some "")
          × (r ≡ done)
          × IsTerminal (status_of (id_of e) w'.calls)
          × (num_predictions w'.calls ≡ 1)
  accepted-completes bound uid e later payload bytes accepted handed readable answers returns =
      let (same, waiting, unasked) = accepted-waits bound uid e payload accepted handed in
      let w = record (run_async reply_codec runtime server bound uid e).1 { env = later } in
      let (completed, final, asked) =
        process_in-completes format codec server.webhook server.platform metrics bytes payload w
          readable answers returns in
      (waiting, completed, rw (← same) final, omega (arith, asked, unasked))
