-- ===== src/Tests/Platform.antt =====
-- Tests of the platforms.
use serving_agent.Common.{◌≡◌, ◌↔◌, false, refl, none, pos, plain, ok, err, [], ◌∷◌}
use serving_agent.Platform.{UpdateRequest, null}
use serving_agent.Platform.KServe.{predict}
use serving_agent.Platform.RunPod.{RunPod, new_runpod}
use serving_agent.Platform.RunPod
use serving_agent.Platform.Replicate.{Replicate, new_replicate}
use serving_agent.Platform.Replicate
use serving_agent.Platform.Remote.Jobs.{remote-predict-Adds}
use serving_agent.Platform.Remote.Polls.{Adds}
use serving_agent.Platform.InternalWebhook.{InternalWebhook, new_internal_webhook}
use serving_agent.Platform.InternalWebhook.Requests.{
  OneExchange, client, internal_webhook-OneExchange,
}
use serving_agent.Platform.InternalWebhook.Updates.{Confirmed, update_task_info-Confirmed}
use serving_agent.Platform.KServe.Retries.{Concluded, run_send, send_request-Concluded}
use serving_agent.Platform.KServe.Bodies.{Tidy, predict-Tidy}
use serving_agent.Http.Record.{fresh, recorded_http}
use serving_agent.Tests.Fixtures.{
  format, json_codec, http, kserve, answer, Answers, request, config, task_codec, fetcher,
}

-- A refused connection, a 503, and then an answer.
abbrev bumpy : Answers
bumpy = err (plain "connection refused") ∷ answer 503 ∷ answer 200 ∷ []

send_request-Concluded_example :
    Concluded
      (run_send format json_codec http kserve "m" "GET" "http://a" none (pos 10) bumpy).0
      (run_send format json_codec http kserve "m" "GET" "http://a" none (pos 10) bumpy).1.log
send_request-Concluded_example =
    send_request-Concluded format json_codec http kserve "m" "GET" "http://a" none (pos 10) bumpy
      refl

predict-Tidy_example :
    Tidy (predict format json_codec (recorded_http http) kserve request "v1" (fresh bumpy)).1.log
predict-Tidy_example = predict-Tidy format json_codec http kserve request "v1" bumpy

abbrev runpod : RunPod
runpod = new_runpod config

abbrev replicate : Replicate
replicate = new_replicate config

remote-predict-Adds_example :
    Adds 301 300 0 []
      (RunPod.predict format json_codec
        (recorded_http http)
        runpod
        request
        "v1"
        (fresh bumpy)).1.log
    × Adds 301 300 0 []
        (Replicate.predict format json_codec
          (recorded_http http)
          replicate
          request
          "v1"
          (fresh bumpy)).1.log
remote-predict-Adds_example =
    remote-predict-Adds format json_codec http runpod replicate request "v1" (fresh bumpy)

abbrev internal : InternalWebhook
internal = new_internal_webhook config

abbrev accepting : Answers
accepting = answer 200 ∷ []

abbrev canceled : UpdateRequest
canceled = record {
  id = "t1";
  status = "canceled";
  running_time = "";
  outputs = null;
  error_info = "";
  queue_id = "";
  database_only = false;
}

update_task_info-Confirmed_example :
    let (r, w) =
      (client format json_codec task_codec http fetcher internal).update_task_info canceled
        (fresh accepting) in
    (r ≡ ok tt) ↔ Confirmed json_codec internal canceled [] w.log
update_task_info-Confirmed_example =
    update_task_info-Confirmed format json_codec task_codec http fetcher internal canceled
      (fresh accepting)

internal_webhook-OneExchange_example :
    OneExchange "123456789"
      ((client format json_codec task_codec http fetcher internal).update_task_info canceled
        (fresh accepting)).1.log
internal_webhook-OneExchange_example =
    (internal_webhook-OneExchange format json_codec task_codec http fetcher internal accepting).1
      canceled
