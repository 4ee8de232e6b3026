-- ===== src/Main/Startup.antt =====
-- main.go: `main` up to its signals; and utils/config.go: `LoadConfigs`, over viper.
pub mod Serving
pub mod Ending
use serving_agent.Common.{
  String, Option, none, some, Exec, pure, ◌>>=◌, ◌>>◌, Result, ok, err, str_eq, if◌then◌else◌,
}
use serving_agent.Config.{Config}
use serving_agent.Http.{HttpResponse, Http}
use serving_agent.Platform.{Platform, Webhook, Format, JsonCodec}
use serving_agent.Platform.KServe.Streaming.{Stream, StreamClient}
use serving_agent.Host.{Host, listen, measure, process, check}
use serving_agent.Worker.{TaskDistributor}
use serving_agent.Worker.Processor.{
  RedisConnOpt, RedisTaskProcessor, new_redis_task_distributor, new_redis_task_processor,
}
use serving_agent.Api.Router.{Routed, new_server}
use serving_agent.Main.{pre_check, choose_platform}

-- viper: where it looks for the settings and for the environment, and what it finds.
pub record Viper (W : Type 0) : Type 0 where
  pub add_config_path : String → Exec W (Unit {0})
  pub set_config_name : String → Exec W (Unit {0})
  pub set_config_type : String → Exec W (Unit {0})
  pub automatic_env : Exec W (Unit {0})
  pub read_in_config : Exec W (Result (Unit {0}))
  pub unmarshal : Exec W (Result Config)

module _ {W : Type 0} (viper : Viper W) where
  unmarshal_read : Result (Unit {0}) → Exec W (Result Config)
  unmarshal_read (err e) = pure (err e)
  unmarshal_read (ok _) = viper.unmarshal

  -- `LoadConfigs`; what it returns along with an error is not used.
  unfoldable pub load_configs : String → Exec W (Result Config)
  unfolding unmarshal_read
  load_configs path = do
    viper.add_config_path path
    viper.set_config_name "app"
    viper.set_config_type "env"
    viper.automatic_env
    found ← viper.read_in_config
    unmarshal_read found

-- What the program serves with: the server with its router, the connection of the distributor (none
-- is nil), and the processor of the queue.
pub record Running (W : Type 0) : Type 0 where
  pub routed : Routed W
  pub distributor : Option RedisConnOpt
  pub processor : RedisTaskProcessor

-- `log.Fatal` ends the program with a message.
pub data Startup (W : Type 0) : Type 0 where
  fatal : String → Startup W
  serving : Running W → Startup W

-- `connect` is the distributor over a connection, as `NewRedisTaskDistributor` makes it of asynq's
-- client (of nil, whatever a call on nil does), and `new_webhook` is `NewInternalWebhook`.
module _ {W : Type 0} (host : Host W) (connect : Option RedisConnOpt → TaskDistributor W)
    (new_webhook : Config → Webhook W) where
  -- The part of `runServer` that waits for the address of Redis.
  start_worker : Routed W → Option RedisConnOpt → Exec W (Startup W)
  start_worker routed redis =
      let config = routed.server.config in
      if str_eq config.redis_address "" then pure (fatal "redis address is not set") else (do
        host.spawn process
        host.spawn check
        pure (
            serving (record {
              routed = routed;
              distributor = redis;
              processor = new_redis_task_processor config;
            })))

  start_server : Option RedisConnOpt → Result (Routed W) → Exec W (Startup W)
  start_server redis (err _) = pure (fatal "cannot create server")
  start_server redis (ok routed) = do
    host.spawn (listen routed.server.config.http_server_address)
    host.spawn measure
    start_worker routed redis

  -- `runServer` up to its signals. The server for HTTP and the loop over the queue's size are running
  -- when the address is looked at.
  run_server : Config → Platform W → Option RedisConnOpt → Exec W (Startup W)
  unfolding start_server start_worker
  run_server config platform redis =
      start_server redis (new_server config platform (connect redis) (new_webhook config))

  module _ (format : Format) (codec : JsonCodec) (http : Http W) (stream_of : HttpResponse → Stream)
      (client : StreamClient W) where
    with_platform : Config → Option (Platform W) → Exec W (Startup W)
    with_platform config none = pure (fatal "ML platform is not set")
    with_platform config (some platform) =
        run_server config platform (new_redis_task_distributor config)

    checked : Config → Option String → Exec W (Startup W)
    checked config (some message) = pure (fatal message)
    checked config none =
        with_platform config (choose_platform format codec http stream_of client config)

    loaded : Result Config → Exec W (Startup W)
    loaded (err _) = pure (fatal "cannot load config")
    loaded (ok config) = checked config (pre_check config)

    -- `main`, up to the signals
    pub main : Viper W → Exec W (Startup W)
    main viper = do config ← load_configs viper "."; loaded config
