-- ===== src/Main.antt =====
-- main.go: the checks on the settings before anything starts, the choice of the platform, and the end
-- of `runServer`.
pub mod Settings
pub mod Deadlines
pub mod Termination
pub mod Quiet
pub mod Startup
pub mod Goroutines
use serving_agent.Common.{
  of_seconds, String, Bool, ◌||◌, true, false, not, ◌&&◌, Option, none, some, pos, Exec, pure,
  ◌>>=◌, ◌>>◌, ltb_ℤ, str_eq, if◌then◌else◌,
}
use serving_agent.Config.{Config}
use serving_agent.Http.{HttpResponse, Http}
use serving_agent.Worker.{TaskDistributor, TaskProcessor, Runtime, PayloadCodec}
use serving_agent.Worker.Distributor.{shutdown_distributor}
use serving_agent.Platform.{Platform, Webhook, Format, JsonCodec}
use serving_agent.Platform.KServe.{new_kserve}
use serving_agent.Platform.KServe
use serving_agent.Platform.KServe.Streaming.{Stream, StreamClient}
use serving_agent.Platform.KServe.Streaming
use serving_agent.Platform.Replicate.{new_replicate}
use serving_agent.Platform.Replicate
use serving_agent.Platform.RunPod.{new_runpod}
use serving_agent.Platform.RunPod
use serving_agent.Platform.K8s.{new_k8s_plugin}
use serving_agent.Platform.K8s

-- `PreCheck`: the message with which the program ends, if it does.
abbrev pub pre_check : Config → Option String
pre_check config =
    if ltb_ℤ config.max_queue_size (pos 1)
    then some "MaxQueueSize must be > 0"
    else if ltb_ℤ config.task_timeout config.kserve_request_timeout
        || ltb_ℤ config.task_timeout config.k8s_plugin_request_timeout
        || ltb_ℤ config.task_timeout config.replicate_request_timeout
        || ltb_ℤ config.task_timeout config.runpod_request_timeout
    then some "timeout setting error: TaskTimeout must be >= [Platform]RequestTimeout"
    else none

module _ {W : Type 0} (format : Format) (codec : JsonCodec) (http : Http W)
    (stream_of : HttpResponse → Stream) (client : StreamClient W) (config : Config) where
  abbrev kserve_platform : Platform W
  kserve_platform =
      let service = new_kserve config in
      record {
        predict = KServe.predict format codec http service;
        generate = Streaming.generate codec http stream_of client service;
        docs = KServe.docs format codec http service;
      }

  abbrev replicate_platform : Platform W
  replicate_platform =
      let service = new_replicate config in
      record {
        predict = Replicate.predict format codec http service;
        generate = Replicate.generate format codec http service;
        docs = Replicate.docs format codec http service;
      }

  abbrev runpod_platform : Platform W
  runpod_platform =
      let service = new_runpod config in
      record {
        predict = RunPod.predict format codec http service;
        generate = RunPod.generate format codec http service;
        docs = RunPod.docs format codec http service;
      }

  abbrev k8s_platform : Platform W
  k8s_platform =
      let service = new_k8s_plugin config in
      record {
        predict = K8s.predict format codec http service;
        generate = K8s.generate format codec http service;
        docs = K8s.docs format codec http service;
      }

  -- The platform that `main` starts, if it starts one.
  abbrev pub choose_platform : Option (Platform W)
  choose_platform =
      if str_eq config.ml_platform "kserve"
      then some kserve_platform
      else if str_eq config.ml_platform "replicate"
      then some replicate_platform
      else if str_eq config.ml_platform "runpod"
      then some runpod_platform
      else if str_eq config.ml_platform "k8s" || str_eq config.ml_platform "k8s-plugin"
      then some k8s_platform
      else none

-- The signals that arrive up to the first SIGTERM or SIGINT; each one before it is a SIGTSTP.
pub data Signals : Type 0 where
  terminated : Signals
  tstp : Signals → Signals

module _ {W : Type 0} (config : Config) (codec : PayloadCodec) (runtime : Runtime W)
    (distributor : TaskDistributor W) (webhook : Webhook W) (processor : TaskProcessor W) where
  await_termination : Signals → Exec W (Unit {0})
  await_termination terminated = pure tt
  await_termination (tstp signals) = do processor.stop; await_termination signals

  -- The wait in front of `ShutdownDistributor`.
  wait_delay : Exec W (Unit {0})
  wait_delay =
      if ltb_ℤ (pos 0) config.shutdown_delay
      then runtime.sleep (of_seconds config.shutdown_delay)
      else pure tt

  -- Only a queue in local memory is emptied.
  empty_queue : Bool → Exec W (Unit {0})
  empty_queue false = pure tt
  empty_queue true = do wait_delay; shutdown_distributor codec distributor webhook

  -- The end of `runServer`, less the shutdown of the HTTP server.
  unfoldable pub terminate : Signals → Exec W (Unit {0})
  unfolding await_termination wait_delay empty_queue
  terminate signals = do
    await_termination signals
    empty_queue (not config.redis_cluster_mode && config.use_local_redis)
    processor.shutdown
