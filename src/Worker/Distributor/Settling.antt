-- ===== src/Worker/Distributor/Settling.antt =====
-- `CheckTaskStatus` over a webhook service that keeps what it is told.
use serving_agent.Common.{String, List, map}
use serving_agent.Config.{Config}
use serving_agent.Platform.{Webhook}
use serving_agent.Worker.{QueuedTask, TaskDistributor, Runtime, queue_critical}
use serving_agent.Worker.Distributor.{ids_or_none, tasks_or_none, wait_for_tasks}

module _ {E : Type 0} (config : Config) (runtime : Runtime E) (distributor : TaskDistributor E)
    (webhook : Webhook E) where
  -- What the check sees: the records named as pending and as running, and, after the wait, the queue
  -- ids of the unfinished tasks and the services at that moment.
  abbrev pub survey : E → List String × List String × List String × E
  survey e =
      let (pending, e₁) = webhook.get_task_id_by_model_status config.model_name "pending" e in
      let (running, e₂) = webhook.get_task_id_by_model_status config.model_name "running" e₁ in
      let ps = ids_or_none pending in
      let rs = ids_or_none running in
      let e₃ = (wait_for_tasks config runtime distributor webhook ps rs e₂).1 in
      let (listed, e₄) = distributor.list_unfinished_tasks queue_critical e₃ in
      (ps, rs, map (λ (t : QueuedTask). t.id) (tasks_or_none listed), e₄)
