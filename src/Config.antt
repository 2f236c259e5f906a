-- ===== src/Config.antt =====
-- internal/config/config.go. A label selector is a value of apimachinery that is only carried.
use nelm_operator.Base.{String, ℤ, Bool}
use nelm_operator.Api.{Duration, Foreign}

pub record OperatorConfig : Type 0 where
  pub default_service_account_name : String
  pub leader_elect : Bool
  pub max_concurrent_reconciles : ℤ
  pub metrics_bind_address : String
  pub health_probe_bind_address : String
  pub metrics_secure : Bool
  pub metrics_cert_dir : String
  pub metrics_cert_name : String
  pub metrics_cert_key : String
  pub graceful_shutdown_timeout : Duration
  pub watch_all_namespaces : Bool
  pub watch_namespace : String
  pub dependency_watch_label_selector : Foreign
  pub source_api_group : String
  pub source_api_version : String
  pub http_retry : ℤ
  pub http_timeout : Duration
  pub release_storage_driver : String
  pub release_storage_sql_connection : String
  pub kube_qps_limit : ℤ
  pub kube_burst_limit : ℤ
  pub kube_request_timeout : Duration
  pub network_parallelism : ℤ
  pub deno_binary_path : String
  pub temp_dir : String
  pub log_level : String
