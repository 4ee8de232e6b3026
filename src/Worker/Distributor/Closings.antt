-- ===== src/Worker/Distributor/Closings.antt =====
-- `CheckArchivedTasks` and `ShutdownDistributor` over a webhook service that keeps what it is told:
-- what they leave is determined by sets of records, also when both run at once.
use serving_agent.Worker.{TaskDistributor, queue_critical}

-- The world after the three listings of a shutdown.
abbrev pub after_listings : {E : Type 0} → TaskDistributor E → E → E
after_listings distributor e =
    let e₁ = (distributor.list_scheduled_tasks queue_critical e).1 in
    let e₂ = (distributor.list_pending_tasks queue_critical e₁).1 in
    (distributor.list_retry_tasks queue_critical e₂).1
