-- ===== src/Main/Startup/Ending.antt =====
-- main.go: the whole program, from its settings to its end.
pub mod Outcome
pub mod Order
use serving_agent.Common.{
  List, [], ◌∷◌, ◌++◌, some, none, ◌≡◌, ◌⊎◌, of_seconds, String, pos, Option, Exec, pure, ◌>>=◌,
  ◌>>◌, Result, ok, err,
}
use serving_agent.Config.{Config}
use serving_agent.Http.{HttpResponse, Http}
use serving_agent.Host.{Host, HostCall, spawned, Goroutine, listen, process}
use serving_agent.Platform.{Webhook, Format, JsonCodec}
use serving_agent.Platform.KServe.Streaming.{Stream, StreamClient}
use serving_agent.Worker.{TaskDistributor, TaskProcessor, Runtime, PayloadCodec}
use serving_agent.Worker.Processor.{RedisConnOpt, RedisTaskProcessor}
use serving_agent.Trace.{World, Call, hosted}
use serving_agent.Main.{Signals, terminate}
use serving_agent.Main.Startup
use serving_agent.Main.Startup.{Viper, Startup, Running, serving, main}
use serving_agent.Main.Goroutines.{Ending, returned, fatal}

-- The goroutine was started by one of the calls.
abbrev pub IsSpawned : Goroutine → List HostCall → Type 0
IsSpawned g [] = ⊥
IsSpawned g (h ∷ hs) = (h ≡ spawned g) ⊎ IsSpawned g hs

-- What `log.Fatal` says in a goroutine of `runServer`, at any moment after its start, when its server
-- fails; it ends the program at once.
abbrev pub last_words : Goroutine → Option String
last_words (listen address) = some "cannot start server"
last_words process = some "failed to start task processor"
last_words _ = none

-- How the program ends and after which calls, where `whole` is what it comes to if no goroutine ends
-- it before: this, or what is on record at the moment when a goroutine that was started does.
pub data IsEnding {E : Type 0} (whole : Ending × World E) : Ending → List Call → Type 0 where
  by_itself : IsEnding whole whole.0 whole.1.calls
  cut_short :
      (later : List Call) {calls : List Call} {m : String} (g : Goroutine)
      → whole.1.calls ≡ later ++ calls
      → IsSpawned g (hosted calls)
      → last_words g ≡ some m
      → IsEnding whole (fatal m) calls

-- `processor_of` is asynq's server behind a processor.
module _ {W : Type 0} (host : Host W) (connect : Option RedisConnOpt → TaskDistributor W)
    (new_webhook : Config → Webhook W) (processor_of : RedisTaskProcessor → TaskProcessor W)
    (payload_codec : PayloadCodec) (runtime : Runtime W) where
  -- The end of `runServer`, from the answer of the HTTP server's shutdown. `log.Fatal` runs no
  -- deferred call.
  after_shutdown : Result (Unit {0}) → Exec W Ending
  after_shutdown (err _) = pure (fatal "server shutdown")
  after_shutdown (ok _) = do host.await_deadline; host.cancel; pure returned

  -- `runServer` from its signals on.
  pub leave : Running W → Signals → Exec W Ending
  leave r signals = do
    terminate r.routed.server.config payload_codec runtime r.routed.server.distributor
        r.routed.server.webhook (processor_of r.processor) signals
    host.with_timeout (of_seconds (pos 5))
    closed ← host.shutdown_server
    after_shutdown closed

  pub after_startup : Signals → Startup W → Exec W Ending
  after_startup signals (Startup.fatal m) = pure (fatal m)
  after_startup signals (serving r) = leave r signals

  -- `main`, where these signals arrive, if no goroutine ends the program before.
  pub run_program :
      Format
      → JsonCodec
      → Http W
      → (HttpResponse → Stream)
      → StreamClient W
      → Viper W
      → Signals
      → Exec W Ending
  run_program format codec http stream_of client viper signals = do
    startup ← main host connect new_webhook format codec http stream_of client viper
    after_startup signals startup
