-- ===== src/Tests/System.antt =====
-- A request and a worker at the same time.
use serving_agent.Common.{true, List, [], ◌∷◌, ok, pure, ◌≡◌, refl, some}
use serving_agent.Api.Router.{predict_later, Bound}
use serving_agent.Api.{streamed}
use serving_agent.System.{
  run_as_running, IsBalanced, IsWoven, none_left, from_first, from_second, Services, request, task,
  run_activity, IsTrace, idle, beside,
}
use serving_agent.System.Interleaving.{trace-IsBalanced}
use serving_agent.System.Lifecycle.{accepted-completes}
use serving_agent.Platform.{made, field, str, end}
use serving_agent.Worker.{PayloadRunPrediction, PayloadCodec}
use serving_agent.Worker.Predict.{done}
use serving_agent.Worker.Predict.Settles.{process_in}
use serving_agent.Api.{with_upload_webhook}
use serving_agent.Api.Queue.{async_predict}
use serving_agent.Api.Queue.Admission.{run_async}
use serving_agent.Trace.{Call, status_of, num_predictions, IsTerminal}
use serving_agent.Tests.Fixtures.{
  format, payload_codec, payload, webhook, platform, reply_codec, runtime, metrics, server,
  request as request_m, Empty,
}

-- Two activities that take turns.
abbrev braid : List Call → List Call → List Call
braid [] ys = ys
braid (x ∷ xs) [] = x ∷ xs
braid (x ∷ xs) (y ∷ ys) = x ∷ y ∷ braid xs ys

alone_first : (xs : List Call) → IsWoven xs [] xs
alone_first [] = none_left
alone_first (x ∷ xs) = from_first (alone_first xs)

alone_second : (ys : List Call) → IsWoven [] ys ys
alone_second [] = none_left
alone_second (y ∷ ys) = from_second (alone_second ys)

braid-IsWoven : (xs ys : List Call) → IsWoven xs ys (braid xs ys)
braid-IsWoven [] ys = alone_second ys
braid-IsWoven (x ∷ xs) [] = alone_first (x ∷ xs)
braid-IsWoven (x ∷ xs) (y ∷ ys) = from_first (from_second (braid-IsWoven xs ys))

abbrev services : Services Empty
services = record {
  format = format;
  payload_codec = payload_codec;
  reply_codec = reply_codec;
  runtime = runtime;
  metrics = metrics;
  processor = record { stop = pure tt; shutdown = pure tt };
  server = server;
  exposition = pure streamed;
}

abbrev bound : Bound
bound = record {
  infer = ok request_m;
  model = ok (record { model_name = "m" });
  task_id = ok "t1";
  uid = "u";
  writer = record { flushes = true; written = true };
}

abbrev requested : List Call
requested = (run_activity services (request predict_later bound) tt).calls

abbrev worked : List Call
worked = (run_activity services (task "task") tt).calls

both_at_once : IsTrace (braid requested worked)
both_at_once =
    beside services (task "task") tt
      (beside services (request predict_later bound) tt idle (alone_second requested))
      (braid-IsWoven requested worked)

trace-IsBalanced_example : IsBalanced run_as_running (braid requested worked)
trace-IsBalanced_example = trace-IsBalanced run_as_running both_at_once

-- What `asyncPredict` hands to the queue, and a codec that reads it.
abbrev pub handed : PayloadRunPrediction
handed = record payload {
  request = record request_m {
    inputs = made (field "upload_webhook" (str "http://0.0.0.0:12000/upload") end);
  };
}

abbrev pub codec : PayloadCodec
codec = record payload_codec { unmarshal = λ s. ok handed }

accepted-completes_example :
    let w = (run_async reply_codec runtime server (ok request_m) "u" tt).1 in
    let (r, w') = process_in format codec webhook platform metrics "task" w in
    (status_of "t1" w.calls ≡ some "")
    × (r ≡ done)
    × IsTerminal (status_of "t1" w'.calls)
    × (num_predictions w'.calls ≡ 1)
unfolding async_predict with_upload_webhook
accepted-completes_example =
    accepted-completes format codec reply_codec runtime metrics server (ok request_m) "u" tt tt
      handed "task" refl refl refl (λ u e. refl) (λ req version e m h. cc)
