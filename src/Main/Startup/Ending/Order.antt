-- ===== src/Main/Startup/Ending/Order.antt =====
-- In which order the program starts its parts and ends them.
use serving_agent.Common.{of_seconds, ◌≡◌, refl, Option, List, ◌∷◌, pos, Result, ok, err}
use serving_agent.Config.{Config}
use serving_agent.Host.{Host, HostCall, timed, shut_down, expired, canceled}
use serving_agent.Platform.{Platform, Webhook}
use serving_agent.Worker.{TaskDistributor, TaskProcessor, Runtime, PayloadCodec}
use serving_agent.Worker.Processor.{RedisConnOpt, RedisTaskProcessor}
use serving_agent.Api.Router.{Routed, setup_router}
use serving_agent.Main.{Signals}
use serving_agent.Main.Termination.{terminate-ends}
use serving_agent.Main.Startup.{Running}
use serving_agent.Main.Goroutines.{Ending, returned, fatal}
use serving_agent.Main.Startup.Ending.{after_shutdown, leave}
use serving_agent.Trace.{World, Call, hosted, host_call, shutdown_processor_call}
use serving_agent.Trace.Record.{
  recorded_webhook, recorded_distributor, recorded_runtime, recorded_processor, recorded_host,
}

-- How the program leaves, after these calls to Go. The processor was shut down before the HTTP
-- server, which had five seconds; then the program waited until they were over, or ended at once if
-- the server did not close.
abbrev pub Leaves : List HostCall → Ending → List Call → Type 0
Leaves before returned
      (host_call canceled
        ∷ host_call expired
        ∷ host_call (shut_down (ok _))
        ∷ host_call (timed duration)
        ∷ shutdown_processor_call
        ∷ cs) =
    (duration ≡ of_seconds (pos 5)) × (hosted cs ≡ before)
Leaves before (fatal m)
      (host_call (shut_down (err _)) ∷ host_call (timed duration) ∷ shutdown_processor_call ∷ cs) =
    (m ≡ "server shutdown") × (duration ≡ of_seconds (pos 5)) × (hosted cs ≡ before)
Leaves before _ _ = ⊥

module _ {E : Type 0} (host : Host E) (connect : Option RedisConnOpt → TaskDistributor E)
    (new_webhook : Config → Webhook E) (processor_of : RedisTaskProcessor → TaskProcessor E)
    (payload_codec : PayloadCodec) (runtime : Runtime E) where
  abbrev after : Result (Unit {0}) → World E → Ending × World E
  after closed w =
      after_shutdown (recorded_host host) (λ r. recorded_distributor (connect r))
        (λ c. recorded_webhook (new_webhook c)) (λ p. recorded_processor (processor_of p))
        payload_codec (recorded_runtime runtime) closed w

  after_shutdown-Leaves :
      (closed : Result (Unit {0})) (e : E) (cs calls : List Call)
      → calls ≡ shutdown_processor_call ∷ cs
      → let w : World E = record {
        env = e;
        calls = host_call (shut_down closed) ∷ host_call (timed (of_seconds (pos 5))) ∷ calls;
      } in
        let (ending, w') = after closed w in Leaves (hosted cs) ending w'.calls
  unfolding after_shutdown
  after_shutdown-Leaves (ok _) e cs calls last = rw last (refl, refl)
  after_shutdown-Leaves (err _) e cs calls last = rw last (refl, refl, refl)

  -- The server as `main` makes it.
  abbrev pub made : Config → Platform (World E) → Option RedisConnOpt → Routed (World E)
  made config platform redis = record {
    server = record {
      config = config;
      platform = platform;
      distributor = recorded_distributor (connect redis);
      webhook = recorded_webhook (new_webhook config);
    };
    router = setup_router;
  }

  abbrev left : Running (World E) → Signals → World E → Ending × World E
  left r signals w =
      leave (recorded_host host) (λ c. recorded_distributor (connect c))
        (λ c. recorded_webhook (new_webhook c)) (λ p. recorded_processor (processor_of p))
        payload_codec (recorded_runtime runtime) r signals w

  pub leave-Leaves :
      (config : Config) (platform : Platform (World E)) (redis : Option RedisConnOpt)
      (processor : RedisTaskProcessor) (signals : Signals) (w : World E)
      → let r : Running (World E) = record {
        routed = made config platform redis;
        distributor = redis;
        processor = processor;
      } in
        let (ending, w') = left r signals w in Leaves (hosted w.calls) ending w'.calls
  unfolding leave
  leave-Leaves config platform redis processor signals w =
      let (cs, last, same) =
        terminate-ends config payload_codec runtime (connect redis) (new_webhook config)
          (processor_of processor) signals w in
      rw (← same) (after_shutdown-Leaves _ _ cs _ last)
