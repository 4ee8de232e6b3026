-- ===== src/Tests/Network.antt =====
-- The worker with the webhook client, over a network whose answers are fixed.
use serving_agent.Common.{refl, [], ◌∷◌, pure}
use serving_agent.Http.Record.{HttpWorld, fresh}
use serving_agent.Platform.{Platform, served, str, get_key}
use serving_agent.Platform.InternalWebhook.{InternalWebhook, new_internal_webhook, internal_webhook}
use serving_agent.Worker.{Metrics}
use serving_agent.Worker.Predict.{process_task_run_prediction, succeeded_update, running_time_of}
use serving_agent.System.Network.{HasEnded, process_over, process_over-HasEnded}
use serving_agent.Tests.Fixtures.{
  format, payload_codec, payload, response, json_codec, task_codec, http, fetcher, config, Answers,
  answer,
}

abbrev internal : InternalWebhook
internal = new_internal_webhook config

abbrev platform : Platform (HttpWorld Answers)
platform = record {
  predict = λ req version. pure (served response);
  generate = λ req version. pure (served tt);
  docs = λ req. pure (served (str "docs"));
}

abbrev metrics : Metrics Answers
metrics = record {
  predict_failure_inc = pure tt;
  predict_time_set = λ x. pure tt;
  queue_size_set = λ n. pure tt;
  queue_size_ratio_set = λ n k. pure tt;
  task_status_set_to_failed_set = λ n. pure tt;
}

-- Both updates are acknowledged.
abbrev accepting : Answers
accepting = answer 200 ∷ answer 200 ∷ []

process_over-HasEnded_example :
    HasEnded json_codec internal "t1"
      (process_over format payload_codec json_codec task_codec http fetcher internal platform
        metrics "task"
        (fresh accepting)).1.log
unfolding process_task_run_prediction internal_webhook succeeded_update running_time_of get_key
process_over-HasEnded_example =
    process_over-HasEnded format payload_codec json_codec task_codec http fetcher internal platform
      metrics "task" payload (fresh accepting) refl refl
