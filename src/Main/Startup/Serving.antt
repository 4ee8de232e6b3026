-- ===== src/Main/Startup/Serving.antt =====
-- When the program comes to serve.
use serving_agent.Common.{String, ◌≡◌, ◌≢◌, refl, ◌⊎◌, ◌↔◌, Option, none, some, ok, arith, eq_iff}
use serving_agent.Config.{Config}
use serving_agent.Http.{HttpResponse, Http}
use serving_agent.Host.{Host}
use serving_agent.Worker.{TaskDistributor}
use serving_agent.Api.Router.{new_server}
use serving_agent.Platform.{Platform, Webhook, Format, JsonCodec}
use serving_agent.Platform.KServe.Streaming.{Stream, StreamClient}
use serving_agent.Worker.Processor.{
  RedisConnOpt, new_redis_task_distributor, new_redis_task_processor,
}
use serving_agent.Main.{pre_check, choose_platform}
use serving_agent.Main.Settings.{AreSound, pre_check-AreSound}
use serving_agent.Main.Startup.{
  Viper, load_configs, Startup, fatal, serving, run_server, with_platform, checked, loaded, main,
}

abbrev pub IsKnownPlatform : String → Type 0
IsKnownPlatform name =
    (name ≡ "kserve")
    ⊎ ((name ≡ "replicate") ⊎ ((name ≡ "runpod") ⊎ ((name ≡ "k8s") ⊎ (name ≡ "k8s-plugin"))))

-- Settings with which the program can serve.
abbrev pub AreComplete : Config → Type 0
AreComplete config =
    AreSound config × IsKnownPlatform config.ml_platform × (config.redis_address ≢ "")

abbrev pub Serves : {W : Type 0} → Config → Startup W → Type 0
Serves config (fatal m) = ⊥
Serves config (serving r) =
    (r.routed.server.config ≡ config)
    × (r.distributor ≡ some r.processor.redis)
    × (r.processor.config ≡ config)

module _ {W : Type 0} (host : Host W) (connect : Option RedisConnOpt → TaskDistributor W)
    (new_webhook : Config → Webhook W) (format : Format) (codec : JsonCodec) (http : Http W)
    (stream_of : HttpResponse → Stream) (client : StreamClient W) where
  abbrev pub chosen : Config → Option (Platform W)
  chosen config = choose_platform format codec http stream_of client config

  abbrev run_with : Config → Option (Platform W) → W → Startup W
  run_with config platform w =
      (with_platform host connect new_webhook format codec http stream_of client config platform
        w).0

  pub chosen-IsKnownPlatform :
      (config : Config) (platform : Platform W)
      → chosen config ≡ some platform
      → IsKnownPlatform config.ml_platform
  chosen-IsKnownPlatform config platform h =
      let name = config.ml_platform in
      ground (
        arith,
        eq_iff name "kserve",
        eq_iff name "replicate",
        eq_iff name "runpod",
        eq_iff name "k8s",
        eq_iff name "k8s-plugin",
      )

  pub unchosen : (config : Config) → IsKnownPlatform config.ml_platform → chosen config ≢ none
  unchosen config known h =
      let name = config.ml_platform in
      ground (
        arith,
        eq_iff name "kserve",
        eq_iff name "replicate",
        eq_iff name "runpod",
        eq_iff name "k8s",
        eq_iff name "k8s-plugin",
      )

  with_platform-Serves :
      (config : Config) (platform : Option (Platform W)) (w : W)
      → platform ≢ none
      → config.redis_address ≢ ""
      → Serves config (run_with config platform w)
  unfolding with_platform run_server new_server new_redis_task_distributor new_redis_task_processor
  with_platform-Serves config none w chosen address = absurd (chosen refl)
  with_platform-Serves config (some platform) w chosen address =
      ground (arith, eq_iff config.redis_address "")

  Serves-with_platform :
      (config : Config) (platform : Option (Platform W)) (w : W)
      → Serves config (run_with config platform w)
      → (platform ≢ none) × (config.redis_address ≢ "")
  unfolding with_platform run_server new_server new_redis_task_distributor new_redis_task_processor
  Serves-with_platform config none w h = absurd h
  Serves-with_platform config (some platform) w h =
      ((λ p. cc), ground (arith, eq_iff config.redis_address ""))

  known_of :
      (config : Config) (platform : Option (Platform W))
      → chosen config ≡ platform
      → platform ≢ none
      → IsKnownPlatform config.ml_platform
  known_of config none h some_platform = absurd (some_platform refl)
  known_of config (some platform) h some_platform = chosen-IsKnownPlatform config platform h

  checked-Serves :
      (config : Config) (message : Option String) (w : W)
      → ((message ≡ none) ↔ AreSound config)
      → Serves config
          (checked host connect new_webhook format codec http stream_of client config message w).0
        ↔ AreComplete config
  unfolding checked
  checked-Serves config (some m) w sound = ((λ h. absurd h), (λ complete. cc (sound.1 complete.0)))
  checked-Serves config none w sound = (
    (λ h.
        let (platform, address) = Serves-with_platform config (chosen config) w h in
        (sound.0 refl, known_of config (chosen config) refl platform, address)),
    (λ (_, known, address).
        with_platform-Serves config (chosen config) w (unchosen config known) address),
  )

  -- If the settings can be loaded, the program comes to serve with them if and only if they pass
  -- the check, name one of the five platforms and give an address of Redis; the distributor then
  -- has the connection that the processor has.
  pub main-Serves :
      (viper : Viper W) (config : Config) (w : W)
      → (load_configs viper "." w).0 ≡ ok config
      → Serves config (main host connect new_webhook format codec http stream_of client viper w).0
        ↔ AreComplete config
  unfolding main loaded
  main-Serves viper config w found = rw found (
      checked-Serves config (pre_check config) (load_configs viper "." w).1
        (pre_check-AreSound config))
