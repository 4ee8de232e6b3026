-- ===== src/Tests/Fixtures.antt =====
-- Concrete services over a world with nothing in it, and concrete requests.
use serving_agent.Common.{
  ℕ, true, false, none, List, [], ◌∷◌, pos, Exec, pure, plain, Result, ok, err,
}
use serving_agent.Config.{Config}
use serving_agent.Http.{HttpRequest, HttpResponse, Http, Fetcher}
use serving_agent.Platform.{
  null, str, num, end, field, made, InferRequest, InferResponse, Format, JsonCodec, Platform,
  Webhook, served, failure, new_request_error, invalid_input_error,
}
use serving_agent.Platform.InternalWebhook.{TaskCodec}
use serving_agent.Platform.KServe.{KServe, new_kserve}
use serving_agent.Worker.{
  PayloadRunPrediction, QueuedTask, TaskDistributor, Runtime, Metrics, PayloadCodec,
}
use serving_agent.Api.{Server}
use serving_agent.Api.Queue.{ReplyCodec}

abbrev pub Empty : Type 0
Empty = Unit {0}

abbrev pub format : Format
format = record {
  sprint = λ v. elim v [ str s ↦ s | _ ↦ "?" ];
  parse_float = λ s. none;
  fixed = λ v. "1.500000";
  float_div = λ a b. a;
  seconds = λ a b. "1.000000";
}

abbrev pub request : InferRequest
request = record { model_name = "m"; inputs = made end }

abbrev pub payload : PayloadRunPrediction
payload = record { request = request; id = "t1"; api_version = "v1" }

-- Every text is the same payload.
abbrev pub payload_codec : PayloadCodec
payload_codec = record { marshal = λ p. ok "task"; unmarshal = λ s. ok payload }

abbrev pub response : InferResponse
response = record {
  outputs = made (field "running_time" (str "1.5s") (field "image" (str "cat") end));
}

abbrev pub webhook : Webhook Empty
webhook = record {
  create_new_task = λ id uid model status n. pure (ok "created");
  update_task_info = λ u. pure (ok tt);
  get_task_info = λ id. pure (ok (str id));
  get_task_info_object = λ id. pure (
      ok (record {
        id = id;
        status = "pending";
        running_time = "";
        outputs = null;
        created_at = 0;
        error_info = "";
        queue_id = "q9";
      }));
  get_task_id_by_model_status = λ model status. pure (ok ("t1" ∷ []));
}

abbrev pub platform : Platform Empty
platform = record {
  predict = λ req version. pure (served response);
  generate = λ req version. pure (served tt);
  docs = λ req. pure (served (str "docs"));
}

abbrev pub failing_platform : Platform Empty
failing_platform = record platform {
  predict = λ req version. pure (failure (new_request_error invalid_input_error (plain "bad")));
}

abbrev pub queued : QueuedTask
queued = record { id = "q1"; queue = "critical"; payload = "task"; last_failed_at = 5 }

abbrev pub distributor : TaskDistributor Empty
distributor = record {
  distribute_task_run_prediction = λ p opts. pure (ok "q1");
  get_task_queue_info = λ q. pure (ok (record { scheduled = 1; pending = 2; retry = 0 }));
  delete_task = λ q id. pure (ok tt);
  list_archived_tasks = λ q. pure (ok (queued ∷ []));
  list_scheduled_tasks = λ q. pure (ok []);
  list_pending_tasks = λ q. pure (ok (queued ∷ []));
  list_retry_tasks = λ q. pure (err (plain "redis is down"));
  list_active_tasks = λ q. pure (ok []);
  list_unfinished_tasks = λ q. pure (ok (queued ∷ []));
  pause_queue = λ q. pure (ok tt);
  unpause_queue = λ q. pure (ok tt);
}

abbrev pub runtime : Runtime Empty
runtime = record { now = pure 7; sleep = λ n. pure tt; new_uuid = pure "t1" }

abbrev pub metrics : Metrics Empty
metrics = record {
  predict_failure_inc = pure tt;
  predict_time_set = λ x. pure tt;
  queue_size_set = λ n. pure tt;
  queue_size_ratio_set = λ n k. pure tt;
  task_status_set_to_failed_set = λ n. pure tt;
}

abbrev pub config : Config
config = record {
  environment = "development";
  http_server_address = "0.0.0.0:8000";
  redis_address = "0.0.0.0:6379";
  redis_cluster_mode = false;
  use_local_redis = false;
  shutdown_delay = pos 2;
  worker_concurrency = pos 4;
  max_queue_size = pos 30;
  task_type_name = "default";
  task_timeout = pos 320;
  model_name = "m";
  webhook_server_address = "0.0.0.0:12000";
  webhook_apikey = "123456789";
  ml_platform = "kserve";
  upload_webhook_address = "0.0.0.0:12000";
  enable_periodic_check = false;
  kserve_version = "0.10.2";
  kserve_address = "0.0.0.0:8080";
  kserve_custom_domain = "example.com";
  kserve_namespace = "default";
  kserve_request_timeout = pos 300;
  replicate_address = "https://api.replicate.com/v1/predictions";
  replicate_apikey = "";
  replicate_model_id = "22c9";
  replicate_request_timeout = pos 300;
  runpod_address = "https://api.runpod.ai/v2";
  runpod_apikey = "";
  runpod_model_id = "";
  runpod_request_timeout = pos 300;
  k8s_plugin_address = "0.0.0.0:8002";
  k8s_plugin_request_timeout = pos 300;
}

abbrev pub server : Server Empty
server = record {
  config = config;
  platform = platform;
  distributor = distributor;
  webhook = webhook;
}

-- The queue has three tasks, and room for three.
abbrev pub full_server : Server Empty
full_server = record server { config = record config { max_queue_size = pos 3 } }

abbrev pub reply_codec : ReplyCodec
reply_codec = record { id_of_created = λ s. ok "t1"; number = λ n. num n }

abbrev pub json_codec : JsonCodec
json_codec = record {
  write = λ v. ok "{}";
  parse = λ s. ok (str s);
  parse_map = λ s. ok (made end);
  parse_maps = λ s. ok [];
  number = λ n. num n;
}

-- A world of answers still to come, in order; no more answers is a failure.
abbrev pub Answers : Type 0
Answers = List (Result HttpResponse)

abbrev pub replay : HttpRequest → Exec Answers (Result HttpResponse)
replay req [] = (err (plain "no answer"), [])
replay req (a ∷ as') = (a, as')

abbrev pub http : Http Answers
http = record {
  builds = λ method url. true;
  perform = λ timeout req. replay req;
  close = λ res. pure tt;
  sleep = λ n. pure tt;
}

abbrev pub answer : ℕ → Result HttpResponse
answer code = ok (record { status_code = code; body = ok "{}" })

abbrev pub kserve : KServe
kserve = new_kserve config

-- Every text is the same task record.
abbrev pub task_codec : TaskCodec
task_codec = record {
  parse_task = λ s. ok (record {
    id = "t1";
    status = "pending";
    running_time = "";
    outputs = null;
    created_at = 0;
    error_info = "";
    queue_id = "q9";
  });
}

abbrev pub fetcher : Fetcher Answers
fetcher = record { send_request = λ req timeout retries. replay req }
