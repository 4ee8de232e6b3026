-- ===== src/Main/Quiet.antt =====
-- The end of the program is quiet, over any services.
use serving_agent.Common.{arith, refl, Bool, true, false}
use serving_agent.Config.{Config}
use serving_agent.Platform.{Webhook}
use serving_agent.Worker.{TaskDistributor, TaskProcessor, Runtime, PayloadCodec}
use serving_agent.Worker.Distributor.Quiet.{shutdown_distributor-Quietly}
use serving_agent.Main.{
  Signals, terminated, tstp, await_termination, wait_delay, empty_queue, terminate,
}
use serving_agent.Trace.{World}
use serving_agent.Trace.Quiet.{Quietly}
use serving_agent.Trace.Record.{
  recorded_webhook, recorded_distributor, recorded_runtime, recorded_processor,
}

module _ {E : Type 0} (config : Config) (codec : PayloadCodec) (runtime : Runtime E)
    (distributor : TaskDistributor E) (webhook : Webhook E) (processor : TaskProcessor E) where
  abbrev d : TaskDistributor (World E)
  d = recorded_distributor distributor

  abbrev h : Webhook (World E)
  h = recorded_webhook webhook

  abbrev r : Runtime (World E)
  r = recorded_runtime runtime

  abbrev p : TaskProcessor (World E)
  p = recorded_processor processor

  await_termination-Quietly :
      (signals : Signals) → Quietly (await_termination config codec r d h p signals)
  unfolding await_termination
  await_termination-Quietly terminated w q = q
  await_termination-Quietly (tstp signals) w q = await_termination-Quietly signals _ (refl, q)

  wait_delay-Quietly : Quietly (wait_delay config codec r d h p)
  unfolding wait_delay
  wait_delay-Quietly w q = ground arith

  empty_queue-Quietly : (local : Bool) → Quietly (empty_queue config codec r d h p local)
  unfolding empty_queue
  empty_queue-Quietly false w q = q
  empty_queue-Quietly true w q =
      shutdown_distributor-Quietly codec distributor webhook _ (wait_delay-Quietly w q)

  pub terminate-Quietly : (signals : Signals) → Quietly (terminate config codec r d h p signals)
  unfolding terminate
  terminate-Quietly signals w q =
      (refl, empty_queue-Quietly _ _ (await_termination-Quietly signals w q))
