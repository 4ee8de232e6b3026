-- ===== src/Tests/Streaming.antt =====
-- Tests of streamed generations, and of the Kubernetes platform.
use serving_agent.Common.{refl, false, pos, ok, [], ◌∷◌, pure}
use serving_agent.Http.{HttpResponse}
use serving_agent.Platform.KServe.Streaming.{Stream, ended, next, StreamClient, generate}
use serving_agent.Platform.KServe.Streaming.Forwarding.{Complete, run_generate, stream-Complete}
use serving_agent.Platform.KServe.Streaming.Order.{IsOrderly, stream-IsOrderly}
use serving_agent.Platform.K8s.{K8sPlugin, new_k8s_plugin, predict}
use serving_agent.Platform.K8s.Requests.{IsExchange, k8s-predict-IsExchange}
use serving_agent.Http.Record.{fresh, recorded_http}
use serving_agent.Tests.Fixtures.{
  format, json_codec, http, kserve, answer, Answers, request, config,
}

-- Every response streams one message.
abbrev stream_of : HttpResponse → Stream
stream_of res = next (record { id = pos 1; content = "hello" }) ended

-- A client that stays.
abbrev client : StreamClient Answers
client = record { is_gone = pure false; encode = λ m. pure (ok tt); flush = pure tt }

abbrev accepting : Answers
accepting = answer 200 ∷ []

stream-Complete_example :
    Complete stream_of
      (run_generate json_codec http stream_of client kserve request "v1" accepting).1.log
unfolding generate
stream-Complete_example =
    stream-Complete json_codec http stream_of client kserve request "v1" accepting refl

stream-IsOrderly_example :
    IsOrderly stream_of
      (run_generate json_codec http stream_of client kserve request "v1" accepting).1.log
stream-IsOrderly_example =
    stream-IsOrderly json_codec http stream_of client kserve request "v1" accepting

abbrev plugin : K8sPlugin
plugin = new_k8s_plugin config

k8s-predict-IsExchange_example :
    IsExchange
      (predict format json_codec (recorded_http http) plugin request "v1" (fresh accepting)).0
      (predict format json_codec (recorded_http http) plugin request "v1" (fresh accepting)).1.log
k8s-predict-IsExchange_example =
    k8s-predict-IsExchange format json_codec http plugin request "v1" accepting
