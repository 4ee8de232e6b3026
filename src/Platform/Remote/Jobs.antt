-- ===== src/Platform/Remote/Jobs.antt =====
-- The two platforms that are asked for a prediction's status until they have it.
use serving_agent.Common.{suc, String, pos_part}
use serving_agent.Http.{Http}
use serving_agent.Http.Record.{HttpWorld, recorded_http}
use serving_agent.Platform.{InferRequest, Format, JsonCodec}
use serving_agent.Platform.RunPod
use serving_agent.Platform.RunPod.{RunPod}
use serving_agent.Platform.RunPod.Requests.{runpod-predict-Adds}
use serving_agent.Platform.Replicate
use serving_agent.Platform.Replicate.{Replicate}
use serving_agent.Platform.Replicate.Requests.{replicate-predict-Adds}
use serving_agent.Platform.Remote.Polls.{Adds}

module _ {E : Type 0} (format : Format) (codec : JsonCodec) (http : Http E) (runpod : RunPod)
    (replicate : Replicate) where
  -- A prediction on RunPod or on Replicate sends at most one request more than the platform's
  -- configured timeout has seconds (none counted for a negative timeout), sleeps at most as many
  -- seconds as the timeout has, and closes as many responses as it opened.
  pub remote-predict-Adds :
      (req : InferRequest) (version : String) (w : HttpWorld E)
      → let send = recorded_http http in
        let runs = pos_part runpod.timeout in
        let replicas = pos_part replicate.timeout in
        Adds (suc runs) runs 0 w.log (RunPod.predict format codec send runpod req version w).1.log
        × Adds
            (suc replicas)
            replicas
            0
            w.log
            (Replicate.predict format codec send replicate req version w).1.log
  remote-predict-Adds req version w = (
    runpod-predict-Adds format codec http runpod req version w,
    replicate-predict-Adds format codec http replicate req version w,
  )
