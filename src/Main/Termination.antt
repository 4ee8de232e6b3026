-- ===== src/Main/Termination.antt =====
-- What is left of the queue and of the records when the program ends, over any services.
use mathlib.Core.List.{reverse}
use serving_agent.Common.{
  ◌≡◌, refl, ◌∙◌, pos, ltb_ℤ, of_seconds, if◌then◌else◌, Bool, true, false, not, ◌&&◌, List, [],
  ◌∷◌, arith,
}
use serving_agent.Config.{Config}
use serving_agent.Platform.{Webhook}
use serving_agent.Worker.{TaskDistributor, TaskProcessor, Runtime, PayloadCodec}
use serving_agent.Worker.Distributor.Notices.{notices, drops}
use serving_agent.Worker.Distributor.Shutdown.{closing, unfinished, shutdown_from, hosted-shutdown}
use serving_agent.Main.{
  Signals, terminated, tstp, await_termination, wait_delay, empty_queue, terminate,
}
use serving_agent.Trace.{
  World, Call, start, updates, deletions, hosted, stop_processor_call, shutdown_processor_call,
}
use serving_agent.Trace.Record.{
  recorded_webhook, recorded_distributor, recorded_runtime, recorded_processor,
}

abbrev pub is_local : Config → Bool
is_local config = not config.redis_cluster_mode && config.use_local_redis

-- The processor was stopped once for each SIGTSTP, and nothing else was called.
abbrev pub stops : Signals → List Call → List Call
stops terminated cs = cs
stops (tstp signals) cs = stops signals (stop_processor_call ∷ cs)

module _ {E : Type 0} (config : Config) (codec : PayloadCodec) (runtime : Runtime E)
    (distributor : TaskDistributor E) (webhook : Webhook E) (processor : TaskProcessor E) where
  abbrev pub run_terminate : Signals → E → World E
  run_terminate signals e =
      (terminate config codec (recorded_runtime runtime) (recorded_distributor distributor)
        (recorded_webhook webhook) (recorded_processor processor) signals (start e)).1

  abbrev awaited : Signals → World E → World E
  awaited signals w =
      (await_termination config codec (recorded_runtime runtime) (recorded_distributor distributor)
        (recorded_webhook webhook) (recorded_processor processor) signals w).1

  abbrev delayed : World E → World E
  delayed w =
      (wait_delay config codec (recorded_runtime runtime) (recorded_distributor distributor)
        (recorded_webhook webhook) (recorded_processor processor) w).1

  -- The services after the processor was stopped once for each SIGTSTP, and after the delay, which
  -- is none unless it is positive.
  abbrev pub stopped : Signals → E → E
  stopped terminated e = e
  stopped (tstp signals) e = stopped signals (processor.stop e).1

  abbrev pub waited : E → E
  waited e =
      if ltb_ℤ (pos 0) config.shutdown_delay
      then (runtime.sleep (of_seconds config.shutdown_delay) e).1
      else e

  awaited-env : (signals : Signals) (w : World E) → (awaited signals w).env ≡ stopped signals w.env
  unfolding await_termination
  awaited-env terminated w = refl
  awaited-env (tstp signals) w = awaited-env signals _

  delayed-env : (w : World E) → (delayed w).env ≡ waited w.env
  unfolding wait_delay
  delayed-env w = ground arith

  await-stops :
      (signals : Signals) (w : World E) → (awaited signals w).calls ≡ stops signals w.calls
  unfolding await_termination
  await-stops terminated w = refl
  await-stops (tstp signals) w = await-stops signals _

  updates-stops : (signals : Signals) (cs : List Call) → updates (stops signals cs) ≡ updates cs
  updates-stops terminated cs = refl
  updates-stops (tstp signals) cs = updates-stops signals _

  deletions-stops :
      (signals : Signals) (cs : List Call) → deletions (stops signals cs) ≡ deletions cs
  deletions-stops terminated cs = refl
  deletions-stops (tstp signals) cs = deletions-stops signals _

  delay-silent :
      (w : World E)
      → (updates (delayed w).calls ≡ updates w.calls)
        × (deletions (delayed w).calls ≡ deletions w.calls)
  unfolding wait_delay
  delay-silent w = ground arith

  hosted-stops : (signals : Signals) (cs : List Call) → hosted (stops signals cs) ≡ hosted cs
  hosted-stops terminated cs = refl
  hosted-stops (tstp signals) cs = hosted-stops signals _

  hosted-awaited :
      (signals : Signals) (w : World E) → hosted (awaited signals w).calls ≡ hosted w.calls
  hosted-awaited signals w = rw (await-stops signals w) (hosted-stops signals w.calls)

  hosted-delayed : (w : World E) → hosted (delayed w).calls ≡ hosted w.calls
  unfolding wait_delay
  hosted-delayed w = ground arith

  abbrev emptied : Bool → World E → World E
  emptied local w =
      (empty_queue config codec (recorded_runtime runtime) (recorded_distributor distributor)
        (recorded_webhook webhook) (recorded_processor processor) local w).1

  hosted-emptied :
      (local : Bool) (signals : Signals) (w : World E)
      → hosted (emptied local (awaited signals w)).calls ≡ hosted w.calls
  unfolding empty_queue
  hosted-emptied false signals w = hosted-awaited signals w
  hosted-emptied true signals w =
      hosted-shutdown codec distributor webhook (delayed (awaited signals w))
      ∙ hosted-delayed (awaited signals w)
      ∙ hosted-awaited signals w

  -- The last call shuts the processor down, and nothing is asked of Go.
  pub terminate-ends :
      (signals : Signals) (w : World E)
      → (cs : List Call) × ((terminate config codec
            (recorded_runtime runtime)
            (recorded_distributor distributor)
            (recorded_webhook webhook)
            (recorded_processor processor)
            signals
            w).1.calls
          ≡ shutdown_processor_call ∷ cs)
        × (hosted cs ≡ hosted w.calls)
  unfolding terminate
  terminate-ends signals w = (_, refl, hosted-emptied (is_local config) signals w)

  -- If the queue is not in local memory, the end of the program stops the processor once for each
  -- signal to stop and then shuts it down, and calls nothing else: no record is updated and no
  -- task is deleted.
  pub terminate-shared :
      (signals : Signals) (e : E)
      → is_local config ≡ false
      → (run_terminate signals e).calls ≡ shutdown_processor_call ∷ stops signals []
  unfolding terminate empty_queue
  terminate-shared signals e shared = rw (shared, await-stops signals (start e)) refl

  -- If the queue is in local memory (no cluster, and the setting for a local Redis), the end of
  -- the program asks for one update that gives the record up and for one deletion for every task
  -- with a readable payload that the three listings return, in their order, and for no others;
  -- and it lists them when the processor has been stopped once for each signal to stop and then,
  -- if the delay of the settings is positive, the program has slept for it.
  pub terminate-local :
      (signals : Signals) (e : E)
      → is_local config ≡ true
      → let tasks = unfinished codec distributor webhook (waited (stopped signals e)) in
        (updates (run_terminate signals e).calls ≡ reverse (notices codec closing tasks))
        × (deletions (run_terminate signals e).calls ≡ reverse (drops codec tasks))
  unfolding terminate empty_queue
  terminate-local signals e shared =
      let w₁ = awaited signals (start e) in
      let (written, dropped) = shutdown_from codec distributor webhook (delayed w₁) in
      let (no_update, no_deletion) = delay-silent w₁ in
      rw (shared, ← awaited-env signals (start e), ← delayed-env w₁)
        (
          written ∙ rw (no_update, await-stops signals (start e), updates-stops signals []) refl,
          dropped
              ∙ rw (no_deletion, await-stops signals (start e), deletions-stops signals []) refl,
        )
