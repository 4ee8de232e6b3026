-- ===== src/Main/Startup/Ending/Outcome.antt =====
-- What the whole program comes to, by its settings.
use serving_agent.Common.{String, ◌≡◌, ◌≢◌, ◌⊎◌, Option, List, [], ◌∷◌, Result, ok, err}
use serving_agent.Config.{Config}
use serving_agent.Http.{HttpResponse, Http}
use serving_agent.Host.{Host, HostCall, listen, measure, process, check, spawned}
use serving_agent.Platform.{Platform, Webhook, Format, JsonCodec}
use serving_agent.Platform.KServe.Streaming.{Stream, StreamClient}
use serving_agent.Worker.{TaskDistributor, TaskProcessor, Runtime, PayloadCodec}
use serving_agent.Worker.Processor.{RedisConnOpt, RedisTaskProcessor}
use serving_agent.Main.{Signals}
use serving_agent.Main.Settings.{AreSound}
use serving_agent.Main.Startup.{Viper, Startup, with_platform, checked, loaded}
use serving_agent.Main.Startup.Serving.{IsKnownPlatform, chosen}
use serving_agent.Main.Goroutines.{Ending, returned, fatal}
use serving_agent.Main.Startup.Ending.{after_startup, run_program}
use serving_agent.Main.Startup.Ending.Order.{Leaves}
use serving_agent.Trace.{World, Call, start, hosted}
use serving_agent.Trace.Record.{
  recorded_webhook, recorded_distributor, recorded_runtime, recorded_processor, recorded_host,
  unnoted,
}

-- The goroutines started before the address of Redis is looked at, newest first, and all of them.
abbrev pub serving_calls : Config → List HostCall
serving_calls config = spawned measure ∷ spawned (listen config.http_server_address) ∷ []

abbrev pub all_calls : Config → List HostCall
all_calls config = spawned check ∷ spawned process ∷ serving_calls config

abbrev pub IsFatal : Ending → Type 0
IsFatal returned = ⊥
IsFatal (fatal m) = Unit

-- With sound settings and a known platform: without an address of Redis the program ends in an error,
-- while two goroutines are running; with one it runs all four until it leaves.
abbrev pub Started : Config → Ending → List Call → Type 0
Started config ending calls =
    ((config.redis_address ≡ "")
      × (ending ≡ fatal "redis address is not set")
      × (hosted calls ≡ serving_calls config))
    ⊎ ((config.redis_address ≢ "") × Leaves (all_calls config) ending calls)

-- What the settings are, if they were found, and what the program comes to.
abbrev pub Outcome : Result Config → Ending → List Call → Type 0
Outcome (err _) ending calls = IsFatal ending × (calls ≡ [])
Outcome (ok config) ending calls =
    ((¬ AreSound config ⊎ ¬ IsKnownPlatform config.ml_platform) × IsFatal ending × (calls ≡ []))
    ⊎ (AreSound config × IsKnownPlatform config.ml_platform × Started config ending calls)

-- The end by a goroutine: of the HTTP server, or of the processor, which has an address of Redis.
abbrev pub CutShort : Result Config → Ending → List Call → Type 0
CutShort (err _) ending calls = ⊥
CutShort (ok config) ending calls =
    AreSound config
    × IsKnownPlatform config.ml_platform
    × ((ending ≡ fatal "cannot start server")
        ⊎ ((config.redis_address ≢ "") × (ending ≡ fatal "failed to start task processor")))

-- Reading the settings is none of the calls on record.
abbrev pub unnoted_viper : {E : Type 0} → Viper E → Viper (World E)
unnoted_viper viper = record {
  add_config_path = λ path. unnoted (viper.add_config_path path);
  set_config_name = λ name. unnoted (viper.set_config_name name);
  set_config_type = λ kind. unnoted (viper.set_config_type kind);
  automatic_env = unnoted viper.automatic_env;
  read_in_config = unnoted viper.read_in_config;
  unmarshal = unnoted viper.unmarshal;
}

abbrev unlogged : {E : Type 0} → Result Config × E → Result Config × World E
unlogged (found, e) = (found, start e)

module _ {E : Type 0} (host : Host E) (connect : Option RedisConnOpt → TaskDistributor E)
    (new_webhook : Config → Webhook E) (processor_of : RedisTaskProcessor → TaskProcessor E)
    (payload_codec : PayloadCodec) (runtime : Runtime E) (format : Format) (codec : JsonCodec)
    (http : Http (World E)) (stream_of : HttpResponse → Stream) (client : StreamClient (World E))
    (signals : Signals) where
  abbrev ended : Startup (World E) → World E → Ending × World E
  ended startup w =
      after_startup (recorded_host host) (λ c. recorded_distributor (connect c))
        (λ c. recorded_webhook (new_webhook c)) (λ p. recorded_processor (processor_of p))
        payload_codec (recorded_runtime runtime) signals startup w

  abbrev platformed : Config → Option (Platform (World E)) → World E → Ending × World E
  platformed config platform w =
      let (startup, w') =
        with_platform (recorded_host host) (λ c. recorded_distributor (connect c))
          (λ c. recorded_webhook (new_webhook c)) format codec http stream_of client config platform
          w in
      ended startup w'

  abbrev platform_of : Config → Option (Platform (World E))
  platform_of config =
      chosen (recorded_host host) (λ c. recorded_distributor (connect c))
        (λ c. recorded_webhook (new_webhook c)) format codec http stream_of client config

  abbrev checked_program : Config → Option String → World E → Ending × World E
  checked_program config message w =
      let (startup, w') =
        checked (recorded_host host) (λ c. recorded_distributor (connect c))
          (λ c. recorded_webhook (new_webhook c)) format codec http stream_of client config message
          w in
      ended startup w'

  abbrev loaded_program : Result Config → World E → Ending × World E
  loaded_program found w =
      let (startup, w') =
        loaded (recorded_host host) (λ c. recorded_distributor (connect c))
          (λ c. recorded_webhook (new_webhook c)) format codec http stream_of client found w in
      ended startup w'

  -- What the program comes to if no goroutine ends it.
  abbrev whole : Viper E → E → Ending × World E
  whole viper e =
      run_program (recorded_host host) (λ c. recorded_distributor (connect c))
        (λ c. recorded_webhook (new_webhook c)) (λ p. recorded_processor (processor_of p))
        payload_codec (recorded_runtime runtime) format codec http stream_of client
        (unnoted_viper viper) signals (start e)
