-- ===== src/Host.antt =====
-- What main.go takes from Go: goroutines, and the HTTP server of net/http with the context of its end.
use serving_agent.Common.{String, ℤ, Exec, Result}

-- The `go` statements of `runServer`, in its order: `ListenAndServe` on an address, `CheckQueueSize`,
-- the processor of the queue, and the checks of the archive.
pub data Goroutine : Type 0 where
  listen : String → Goroutine
  measure : Goroutine
  process : Goroutine
  check : Goroutine

-- How `ListenAndServe` ends: with `ErrServerClosed`, or with another error.
pub data ServeEnd : Type 0 where
  server_closed : ServeEnd
  serve_failed : ServeEnd

-- The operations. `with_timeout` makes the context, from a duration; `shutdown_server` is
-- `httpServer.Shutdown` under it, `await_deadline` the receive from `ctx.Done()`, and `cancel` the
-- deferred call.
pub record Host (W : Type 0) : Type 0 where
  pub spawn : Goroutine → Exec W (Unit {0})
  pub listen_and_serve : String → Exec W ServeEnd
  pub with_timeout : ℤ → Exec W (Unit {0})
  pub shutdown_server : Exec W (Result (Unit {0}))
  pub await_deadline : Exec W (Unit {0})
  pub cancel : Exec W (Unit {0})

-- The same as calls, with their answers.
pub data HostCall : Type 0 where
  spawned : Goroutine → HostCall
  served_until : ServeEnd → HostCall
  timed : ℤ → HostCall
  shut_down : Result (Unit {0}) → HostCall
  expired : HostCall
  canceled : HostCall
