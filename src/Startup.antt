-- ===== src/Startup.antt =====
-- cmd/main.go: the flags and what is made of them, and the start of the manager.
pub mod Main
pub mod Exits
use nelm_operator.Base.{
  String, ℤ, pos, Bool, true, false, ◌&&◌, not, Option, none, some, str_eq, ltb_ℤ, if◌then◌else◌,
  Result, ok, err,
}
use nelm_operator.Api.{Duration, Foreign}
use nelm_operator.Config.{OperatorConfig}

-- The variables that the flags are bound to: the configuration and the locals of `main`.
pub record Flags : Type 0 where
  pub config : OperatorConfig
  pub metrics_cert_dir : String
  pub metrics_cert_name : String
  pub metrics_cert_key : String
  pub dependency_watch_label_selector : String

-- The values before `flag.Parse`; durations are in nanoseconds. What no flag sets is zero.
abbrev pub default_flags : Flags
default_flags = record {
  config = record {
    default_service_account_name = "";
    leader_elect = false;
    max_concurrent_reconciles = pos 1;
    metrics_bind_address = "0";
    health_probe_bind_address = ":8081";
    metrics_secure = true;
    metrics_cert_dir = "";
    metrics_cert_name = "";
    metrics_cert_key = "";
    graceful_shutdown_timeout = pos 600000000000;
    watch_all_namespaces = true;
    watch_namespace = "";
    dependency_watch_label_selector = "";
    source_api_group = "source.toolkit.fluxcd.io";
    source_api_version = "v1";
    http_retry = pos 9;
    http_timeout = pos 30000000000;
    release_storage_driver = "secret";
    release_storage_sql_connection = "";
    kube_qps_limit = pos 50;
    kube_burst_limit = pos 100;
    kube_request_timeout = pos 0;
    network_parallelism = pos 30;
    deno_binary_path = "";
    temp_dir = "";
    log_level = "info";
  };
  metrics_cert_dir = "";
  metrics_cert_name = "tls.crt";
  metrics_cert_key = "tls.key";
  dependency_watch_label_selector = "";
}

-- `if v := os.Getenv(…); v != "" && cfg.X == ""`
unfoldable pub env_fallback : String → String → String
env_fallback v flag = if not (str_eq v "") && str_eq flag "" then v else flag

-- The configuration from the parsed flags and the environment, without the label selector.
unfoldable pub load_config : (String → String) → Flags → OperatorConfig
unfolding env_fallback
load_config getenv flags = record flags.config {
  release_storage_sql_connection =
      env_fallback (getenv "NELM_RELEASE_STORAGE_SQL_CONNECTION")
        flags.config.release_storage_sql_connection;
  deno_binary_path = env_fallback (getenv "NELM_DENO_BINARY_PATH") flags.config.deno_binary_path;
  metrics_cert_dir = flags.metrics_cert_dir;
  metrics_cert_name = flags.metrics_cert_name;
  metrics_cert_key = flags.metrics_cert_key;
}

-- A `rest.Config` in what `main` sets; `qps` is a `float32`.
pub record RestConfig : Type 0 where
  pub base : Foreign
  pub qps : Foreign
  pub burst : ℤ
  pub timeout : Duration

unfoldable pub limit_rest_config : (ℤ → Foreign) → OperatorConfig → RestConfig → RestConfig
limit_rest_config float32 config rest = record rest {
  qps = float32 config.kube_qps_limit;
  burst = config.kube_burst_limit;
  timeout =
      if ltb_ℤ (pos 0) config.kube_request_timeout
      then config.kube_request_timeout
      else rest.timeout;
}

-- `metricsserver.Options`; `filters_requests` is `FilterProvider` set to authentication and
-- authorization.
pub record MetricsOptions : Type 0 where
  pub bind_address : String
  pub secure_serving : Bool
  pub filters_requests : Bool
  pub cert_dir : String
  pub cert_name : String
  pub key_name : String

unfoldable pub metrics_options : OperatorConfig → MetricsOptions
metrics_options config =
    let has_certs = not (str_eq config.metrics_cert_dir "") in
    record {
      bind_address = config.metrics_bind_address;
      secure_serving = config.metrics_secure;
      filters_requests = config.metrics_secure;
      cert_dir = if has_certs then config.metrics_cert_dir else "";
      cert_name = if has_certs then config.metrics_cert_name else "";
      key_name = if has_certs then config.metrics_cert_key else "";
    }

-- `ctrl.Options` in what `main` sets; `default_namespace` is the one key of `DefaultNamespaces`.
pub record ManagerOptions : Type 0 where
  pub metrics : MetricsOptions
  pub health_probe_bind_address : String
  pub leader_election : Bool
  pub leader_election_id : String
  pub graceful_shutdown_timeout : Duration
  pub default_namespace : Option String

abbrev pub manager_options : OperatorConfig → Option String → ManagerOptions
unfolding metrics_options
manager_options config namespace = record {
  metrics = metrics_options config;
  health_probe_bind_address = config.health_probe_bind_address;
  leader_election = config.leader_elect;
  leader_election_id = "50578024.werf.io";
  graceful_shutdown_timeout = config.graceful_shutdown_timeout;
  default_namespace = namespace;
}
