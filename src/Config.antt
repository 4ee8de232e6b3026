-- ===== src/Config.antt =====
-- utils/config.go: the settings, as viper reads them.
use serving_agent.Common.{String, Bool, ℤ}

pub record Config : Type 0 where
  pub environment : String
  pub http_server_address : String
  pub redis_address : String
  pub redis_cluster_mode : Bool
  pub use_local_redis : Bool
  pub shutdown_delay : ℤ
  pub worker_concurrency : ℤ
  pub max_queue_size : ℤ
  pub task_type_name : String
  pub task_timeout : ℤ
  pub model_name : String
  pub webhook_server_address : String
  pub webhook_apikey : String
  pub ml_platform : String
  pub upload_webhook_address : String
  pub enable_periodic_check : Bool
  pub kserve_version : String
  pub kserve_address : String
  pub kserve_custom_domain : String
  pub kserve_namespace : String
  pub kserve_request_timeout : ℤ
  pub replicate_address : String
  pub replicate_apikey : String
  pub replicate_model_id : String
  pub replicate_request_timeout : ℤ
  pub runpod_address : String
  pub runpod_apikey : String
  pub runpod_model_id : String
  pub runpod_request_timeout : ℤ
  pub k8s_plugin_address : String
  pub k8s_plugin_request_timeout : ℤ
