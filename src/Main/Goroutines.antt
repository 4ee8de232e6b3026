-- ===== src/Main/Goroutines.antt =====
-- main.go: what `runServer` runs beside itself, and `runGinServer` and `runTaskProcessor`, which do
-- the same in the foreground.
use serving_agent.Common.{
  of_seconds, String, pos, List, Exec, pure, ◌>>=◌, ◌>>◌, Result, ok, err, str_eq, if◌then◌else◌,
}
use serving_agent.Config.{Config}
use serving_agent.Platform.{Platform, Webhook}
use serving_agent.Worker.{PayloadCodec, Runtime, Metrics, TaskDistributor}
use serving_agent.Worker.Processor.{RedisTaskProcessor, new_redis_task_processor}
use serving_agent.Api.{Server}
use serving_agent.Api.Router.{Route, Routed, new_server, start}
use serving_agent.Api.Tasks.{periodic_check}
use serving_agent.Host.{Host, ServeEnd, server_closed, serve_failed}

-- How a function ends: it returns, or `log.Fatal` ends the program with a message.
pub data Ending : Type 0 where
  returned : Ending
  fatal : String → Ending

abbrev or_fatal : String → Result (Unit {0}) → Ending
or_fatal message (err _) = fatal message
or_fatal message (ok _) = returned

served_end : ServeEnd → Ending
served_end server_closed = returned
served_end serve_failed = fatal "cannot start server"

module _ {W : Type 0} where
  -- The goroutine of the HTTP server.
  pub serve_http : Host W → String → Exec W Ending
  serve_http host address = do end ← host.listen_and_serve address; pure (served_end end)

  -- The goroutine of the processor; `start` is its `Start`.
  pub process_queue : Exec W (Result (Unit {0})) → Exec W Ending
  process_queue start = do result ← start; pure (or_fatal "failed to start task processor" result)

  -- One round of the loop over the archived tasks, with its pause of thirty minutes.
  pub check_round : PayloadCodec → Runtime W → Metrics W → Server W → Exec W (Unit {0})
  check_round codec runtime metrics server =
      if server.config.enable_periodic_check
      then (do periodic_check codec runtime metrics server; runtime.sleep (of_seconds (pos 1800)))
      else runtime.sleep (of_seconds (pos 1800))

  start_gin :
      (List Route → String → Exec W (Result (Unit {0})))
      → String
      → Result (Routed W)
      → Exec W Ending
  start_gin run address (err _) = pure (fatal "cannot create server")
  start_gin run address (ok routed) = do
    result ← start run routed address
    pure (or_fatal "cannot start server" result)

  -- `runGinServer`; `run` is gin's.
  pub run_gin_server :
      (List Route → String → Exec W (Result (Unit {0})))
      → Config
      → Platform W
      → TaskDistributor W
      → Webhook W
      → Exec W Ending
  run_gin_server run config platform distributor webhook =
      start_gin run config.http_server_address (new_server config platform distributor webhook)

  -- `runTaskProcessor`; `start_processor` is the processor's `Start`.
  pub run_task_processor :
      (RedisTaskProcessor → Exec W (Result (Unit {0}))) → Config → Exec W Ending
  run_task_processor start_processor config =
      if str_eq config.redis_address ""
      then pure (fatal "redis address is not set")
      else process_queue (start_processor (new_redis_task_processor config))
