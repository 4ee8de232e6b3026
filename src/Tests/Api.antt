-- ===== src/Tests/Api.antt =====
-- Tests of the handlers.
use serving_agent.Common.{◌≡◌, ◌↔◌, refl, true, [], ◌∷◌, ok}
use serving_agent.Api.{ResponseWriter, status, with_upload_webhook}
use serving_agent.Api.Predict.Records.{run_predict, run_generate}
use serving_agent.Api.Predict.Protocol.{RepliesIn, predict-Refines}
use serving_agent.Trace.Protocol.{phase_of, Conforms}
use serving_agent.Platform.{InferRequest, made, field, end, str}
use serving_agent.Api.Predict.Stream
use serving_agent.Api.Predict.Stream.{generate-Refines}
use serving_agent.Api.Queue.Protocol
use serving_agent.Api.Queue.Protocol.{async_predict-Refines}
use serving_agent.Api.Queue.{async_predict, task_options}
use serving_agent.Api.Queue.Admission.{
  Accepted, IsFull, run_async, async_predict-429_iff, async_predict-Accepted,
}
use serving_agent.Api.Tasks.Cancel.{
  CanceledAfterDeletion, DeletedAsReported, run_cancel, run_clear,
  cancel_task-CanceledAfterDeletion, delete_all-DeletedAsReported,
}
use serving_agent.Tests.Fixtures.{format, runtime, server, full_server, reply_codec, request}

abbrev sent : InferRequest
sent = record request {
  inputs = made (field "upload_webhook" (str "http://0.0.0.0:12000/upload") end);
}

predict-Refines_example :
    let (r, w) = run_predict format runtime server (ok request) "u" tt in
    RepliesIn r (phase_of format "t1" sent "v1" w.calls) × Conforms format "t1" sent "v1" w.calls
unfolding with_upload_webhook
predict-Refines_example = predict-Refines format runtime server request sent "u" tt refl

-- A part of the stream has been sent.
abbrev writer : ResponseWriter
writer = record { flushes = true; written = true }

generate-Refines_example :
    let (r, w) = run_generate format runtime server writer (ok request) "u" tt in
    Stream.RepliesIn true r (Stream.phase_of format "t1" sent w.calls)
    × Stream.Conforms format "t1" sent w.calls
unfolding with_upload_webhook
generate-Refines_example = generate-Refines format runtime server writer request sent "u" tt refl

async_predict-Refines_example :
    let (r, w) = run_async reply_codec runtime server (ok request) "u" tt in
    let options = task_options reply_codec runtime server in
    Protocol.RepliesIn r (Protocol.phase_of server.config.max_queue_size options "t1" sent w.calls)
    × Protocol.Conforms server.config.max_queue_size options "t1" sent w.calls
unfolding with_upload_webhook
async_predict-Refines_example =
    async_predict-Refines reply_codec runtime server request sent "u" tt refl

async_predict-429_iff_example :
    (status (run_async reply_codec runtime full_server (ok request) "u" tt).0 ≡ 429)
    ↔ IsFull reply_codec runtime full_server tt
unfolding with_upload_webhook
async_predict-429_iff_example =
    async_predict-429_iff reply_codec runtime full_server request _ "u" tt refl

async_predict-Accepted_example :
    Accepted "t1" (run_async reply_codec runtime server (ok request) "u" tt).1.calls
unfolding async_predict with_upload_webhook
async_predict-Accepted_example =
    async_predict-Accepted reply_codec runtime server (ok request) "u" tt refl

cancel_task-CanceledAfterDeletion_example :
    CanceledAfterDeletion (run_cancel reply_codec server (ok "t1") tt).1.calls
cancel_task-CanceledAfterDeletion_example =
    cancel_task-CanceledAfterDeletion reply_codec server (ok "t1") tt

delete_all-DeletedAsReported_example :
    DeletedAsReported reply_codec
      (ok ("t1" ∷ []))
      (run_clear reply_codec server tt).0
      (run_clear reply_codec server tt).1.calls
delete_all-DeletedAsReported_example = delete_all-DeletedAsReported reply_codec server tt
