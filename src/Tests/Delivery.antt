-- ===== src/Tests/Delivery.antt =====
-- Tests of the way of a task through the queue, and of its completion.
use serving_agent.Common.{
  of_seconds, Bool, false, refl, ok, err, plain, [], ◌∷◌, List, String, Result, arith, str_eq, ◌&&◌,
  if◌then◌else◌, pure,
}
use serving_agent.Platform.{Webhook, GoMap, nil_map, made, Fields, field, end, str}
use serving_agent.Worker.{PayloadRunPrediction, PayloadCodec, TaskOptions, Asynq}
use serving_agent.Worker.Predict.{
  process_task_run_prediction, TaskResult, distribute_task_run_prediction,
}
use serving_agent.Worker.Processor.{client, new_redis_task_distributor}
use serving_agent.Worker.Processor.Delivery.{
  ReadsBack, Enqueued, IsDelivered, distribute-IsDelivered,
}
use serving_agent.Trace.Record.{recorded_webhook, recorded_platform, recorded_metrics}
use serving_agent.Trace.{World}
use serving_agent.Tests.Fixtures.{format, config, webhook, platform, metrics, payload_codec}

-- A codec for the payloads of one request, which has an input; it writes the id.
abbrev prompt : Fields → Bool
prompt (field k (str v) end) = str_eq k "prompt" && str_eq v "a cat"
prompt _ = false

abbrev write_payload : PayloadRunPrediction → GoMap → Result String
write_payload p (made fields) = if prompt fields then ok p.id else err (plain "another request")
write_payload p nil_map = err (plain "no inputs")

abbrev cat_payload : PayloadRunPrediction
cat_payload = record {
  request = record { model_name = "m"; inputs = made (field "prompt" (str "a cat") end) };
  id = "t1";
  api_version = "v1";
}

abbrev id_codec : PayloadCodec
id_codec = record {
  marshal = λ p. write_payload p p.request.inputs;
  unmarshal = λ s. ok (record cat_payload { id = s });
}

id_codec-ReadsBack : ReadsBack id_codec cat_payload
id_codec-ReadsBack bytes h = ground (arith, h)

abbrev options : TaskOptions
options = record { max_retry = 1; queue = "critical"; timeout = of_seconds config.task_timeout }

abbrev asynq : Asynq (List Enqueued)
asynq = record {
  enqueue = λ kind bytes opts. pure (ok "q1");
  get_queue_info = λ q. pure (ok (record { scheduled = 0; pending = 1; retry = 0 }));
  delete = λ q id. pure (ok tt);
  list = λ kind q page. pure (ok []);
  pause = λ q. pure (ok tt);
  unpause = λ q. pure (ok tt);
}

distribute-IsDelivered_example :
    IsDelivered format id_codec webhook platform metrics config
      (client "0.0.0.0:6379")
      cat_payload
      options
      (ok "q1")
      []
      (record { kind = "task:default"; bytes = "t1"; opts = options } ∷ [])
unfolding distribute_task_run_prediction new_redis_task_distributor
distribute-IsDelivered_example =
    distribute-IsDelivered format id_codec webhook platform metrics config (λ task. ok "q1") asynq
      (client "0.0.0.0:6379") cat_payload options [] id_codec-ReadsBack refl

-- A webhook service that does not acknowledge the end of a prediction, so the task is run again.
abbrev pub forgetful : Webhook (Unit {0})
forgetful = record webhook {
  update_task_info = λ u. pure (if str_eq u.status "succeeded" then err (plain "gone") else ok tt);
}

abbrev runs : World (Unit {0}) → TaskResult × World (Unit {0})
runs w =
    process_task_run_prediction format payload_codec (recorded_webhook forgetful)
      (recorded_platform platform) (recorded_metrics metrics) "task" w
