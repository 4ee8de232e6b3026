-- ===== src/Trace/Record.antt =====
-- Services over `E` as services over the recording world.
use serving_agent.Common.{◌∷◌, Exec}
use serving_agent.Platform.{Platform, Webhook}
use serving_agent.Worker.{
  TaskDistributor, TaskProcessor, Runtime, Metrics, archived, scheduled, pending, retry, active,
}
use serving_agent.Host.{Host, spawned, served_until, timed, shut_down, expired, canceled}
use serving_agent.Api.{Server}
use serving_agent.Trace.{
  World, Call, create_call, update_call, get_call, get_object_call, by_status_call, predict_call,
  generate_call, docs_call, enqueue_call, queue_info_call, delete_call, list_call,
  list_unfinished_call, pause_call, unpause_call, metric_call, sleep_call, now_call,
  stop_processor_call, shutdown_processor_call, host_call,
}

module _ {E : Type 0} where
  -- A call of the world `E`, with its answer put on record.
  abbrev pub noted : {A : Type 0} → (A → Call) → Exec E A → Exec (World E) A
  noted call m w = let (a, e) = m w.env in (a, record { env = e; calls = call a ∷ w.calls })

  -- A call that no theorem asks about.
  abbrev pub unnoted : {A : Type 0} → Exec E A → Exec (World E) A
  unnoted m w = let (a, e) = m w.env in (a, record w { env = e })

  abbrev pub recorded_webhook : Webhook E → Webhook (World E)
  recorded_webhook h = record {
    create_new_task = λ id uid model status num.
        noted (create_call id status) (h.create_new_task id uid model status num);
    update_task_info = λ u. noted (update_call u) (h.update_task_info u);
    get_task_info = λ id. noted (get_call id) (h.get_task_info id);
    get_task_info_object = λ id. noted (get_object_call id) (h.get_task_info_object id);
    get_task_id_by_model_status = λ model status.
        noted (by_status_call model status) (h.get_task_id_by_model_status model status);
  }

  abbrev pub recorded_platform : Platform E → Platform (World E)
  recorded_platform p = record {
    predict = λ request version. noted (predict_call request version) (p.predict request version);
    generate =
        λ request version. noted (generate_call request version) (p.generate request version);
    docs = λ request. noted (docs_call request.model_name) (p.docs request);
  }

  abbrev pub recorded_distributor : TaskDistributor E → TaskDistributor (World E)
  recorded_distributor d = record {
    distribute_task_run_prediction = λ payload opts.
        noted (enqueue_call payload opts) (d.distribute_task_run_prediction payload opts);
    get_task_queue_info = λ q. noted (queue_info_call q) (d.get_task_queue_info q);
    delete_task = λ q id. noted (delete_call q id) (d.delete_task q id);
    list_archived_tasks = λ q. noted (list_call archived q) (d.list_archived_tasks q);
    list_scheduled_tasks = λ q. noted (list_call scheduled q) (d.list_scheduled_tasks q);
    list_pending_tasks = λ q. noted (list_call pending q) (d.list_pending_tasks q);
    list_retry_tasks = λ q. noted (list_call retry q) (d.list_retry_tasks q);
    list_active_tasks = λ q. noted (list_call active q) (d.list_active_tasks q);
    list_unfinished_tasks = λ q. noted (list_unfinished_call q) (d.list_unfinished_tasks q);
    pause_queue = λ q. noted (pause_call q) (d.pause_queue q);
    unpause_queue = λ q. noted (unpause_call q) (d.unpause_queue q);
  }

  abbrev pub recorded_runtime : Runtime E → Runtime (World E)
  recorded_runtime r = record {
    now = noted now_call r.now;
    sleep = λ seconds. noted (λ _. sleep_call seconds) (r.sleep seconds);
    new_uuid = unnoted r.new_uuid;
  }

  abbrev pub recorded_processor : TaskProcessor E → TaskProcessor (World E)
  recorded_processor p = record {
    stop = noted (λ _. stop_processor_call) p.stop;
    shutdown = noted (λ _. shutdown_processor_call) p.shutdown;
  }

  abbrev pub recorded_host : Host E → Host (World E)
  recorded_host h = record {
    spawn = λ g. noted (λ _. host_call (spawned g)) (h.spawn g);
    listen_and_serve =
        λ address. noted (λ end. host_call (served_until end)) (h.listen_and_serve address);
    with_timeout = λ seconds. noted (λ _. host_call (timed seconds)) (h.with_timeout seconds);
    shutdown_server = noted (λ r. host_call (shut_down r)) h.shutdown_server;
    await_deadline = noted (λ _. host_call expired) h.await_deadline;
    cancel = noted (λ _. host_call canceled) h.cancel;
  }

  abbrev pub recorded_metrics : Metrics E → Metrics (World E)
  recorded_metrics m = record {
    predict_failure_inc = noted (λ _. metric_call) m.predict_failure_inc;
    predict_time_set = λ x. noted (λ _. metric_call) (m.predict_time_set x);
    queue_size_set = λ n. noted (λ _. metric_call) (m.queue_size_set n);
    queue_size_ratio_set = λ n k. noted (λ _. metric_call) (m.queue_size_ratio_set n k);
    task_status_set_to_failed_set =
        λ n. noted (λ _. metric_call) (m.task_status_set_to_failed_set n);
  }

  abbrev pub recorded_server : Server E → Server (World E)
  recorded_server s = record {
    config = s.config;
    platform = recorded_platform s.platform;
    distributor = recorded_distributor s.distributor;
    webhook = recorded_webhook s.webhook;
  }
