-- ===== src/Tests/Serving.antt =====
-- Tests of the start and of the end of the program.
use serving_agent.Common.{◌↔◌, refl, false, ok, plain, err, [], pure, Option}
use serving_agent.Http.{HttpResponse}
use serving_agent.Platform.KServe.Streaming.{Stream, ended, StreamClient}
use serving_agent.Config.{Config}
use serving_agent.Host.{Host, server_closed}
use serving_agent.Http.{Http}
use serving_agent.Platform.{Webhook, null}
use serving_agent.Worker.{TaskDistributor, TaskProcessor, Runtime}
use serving_agent.Worker.Processor.{RedisConnOpt, RedisTaskProcessor}
use serving_agent.Trace.{World, start}
use serving_agent.Trace.Record.{
  recorded_host, recorded_distributor, recorded_webhook, recorded_processor, recorded_runtime,
  unnoted,
}
use serving_agent.Main.{terminated, tstp}
use serving_agent.Main.Goroutines.{Ending}
use serving_agent.Main.Startup.Ending.{run_program}
use serving_agent.Main.Startup.Ending.Outcome.{Outcome, unnoted_viper}
use serving_agent.Main.Startup.{Viper, load_configs, main}
use serving_agent.Main.Startup.Serving.{Serves, AreComplete, main-Serves}
use serving_agent.Tests.Fixtures.{payload_codec, format, json_codec, http, config, Answers}

abbrev viper : Viper Answers
viper = record {
  add_config_path = λ path. pure tt;
  set_config_name = λ name. pure tt;
  set_config_type = λ kind. pure tt;
  automatic_env = pure tt;
  read_in_config = pure (ok tt);
  unmarshal = pure (ok config);
}

abbrev stream_of : HttpResponse → Stream
stream_of res = ended

abbrev stream_client : StreamClient Answers
stream_client = record { is_gone = pure false; encode = λ m. pure (ok tt); flush = pure tt }

-- The distributor and the webhook client answer nothing; starting the program asks them nothing.
abbrev connect : Option RedisConnOpt → TaskDistributor Answers
connect redis = record {
  distribute_task_run_prediction = λ p opts. pure (err (plain "no queue"));
  get_task_queue_info = λ q. pure (err (plain "no queue"));
  delete_task = λ q id. pure (err (plain "no queue"));
  list_archived_tasks = λ q. pure (ok []);
  list_scheduled_tasks = λ q. pure (ok []);
  list_pending_tasks = λ q. pure (ok []);
  list_retry_tasks = λ q. pure (ok []);
  list_active_tasks = λ q. pure (ok []);
  list_unfinished_tasks = λ q. pure (ok []);
  pause_queue = λ q. pure (ok tt);
  unpause_queue = λ q. pure (ok tt);
}

abbrev webhook_of : Config → Webhook Answers
webhook_of _ = record {
  create_new_task = λ id uid model status n. pure (ok "created");
  update_task_info = λ u. pure (ok tt);
  get_task_info = λ id. pure (ok null);
  get_task_info_object = λ id. pure (err (plain "no such task"));
  get_task_id_by_model_status = λ model status. pure (ok []);
}

abbrev host : Host Answers
host = record {
  spawn = λ g. pure tt;
  listen_and_serve = λ address. pure server_closed;
  with_timeout = λ seconds. pure tt;
  shutdown_server = pure (ok tt);
  await_deadline = pure tt;
  cancel = pure tt;
}

main-Serves_example :
    Serves config
      (main host connect webhook_of format json_codec http stream_of stream_client viper []).0
    ↔ AreComplete config
unfolding load_configs
main-Serves_example =
    main-Serves host connect webhook_of format json_codec http stream_of stream_client viper config
      [] refl

-- A clock that stands still, and asynq's server.
abbrev runtime : Runtime Answers
runtime = record { now = pure 7; sleep = λ n. pure tt; new_uuid = pure "t1" }

abbrev processor_of : RedisTaskProcessor → TaskProcessor Answers
processor_of p = record { stop = pure tt; shutdown = pure tt }

abbrev recorded : Http (World Answers)
recorded = record {
  builds = http.builds;
  perform = λ timeout req. unnoted (http.perform timeout req);
  close = λ res. unnoted (http.close res);
  sleep = λ n. unnoted (http.sleep n);
}

abbrev recorded_client : StreamClient (World Answers)
recorded_client = record { is_gone = pure false; encode = λ m. pure (ok tt); flush = pure tt }

-- The program in a fresh trace; its platform is never asked.
abbrev run_tstp : Ending × World Answers
run_tstp =
    run_program (recorded_host host) (λ c. recorded_distributor (connect c))
      (λ c. recorded_webhook (webhook_of c)) (λ p. recorded_processor (processor_of p))
      payload_codec (recorded_runtime runtime) format json_codec recorded stream_of recorded_client
      (unnoted_viper viper) (tstp terminated) (start [])
