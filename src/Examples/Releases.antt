-- ===== src/Examples/Releases.antt =====
-- Releases and states of the small cluster.
use nelm_operator.Base.{pos, true, false, none, some, [], ◌∷◌}
use nelm_operator.Api.{
  Release, ReleaseSpec, ReleaseStatus, ChartSourceRef, ChartSourceReference, InstallConfig,
}
use nelm_operator.Config.{OperatorConfig}
use nelm_operator.Source.{SourceObject, SourceSpec}
use nelm_operator.World.{State, Unstructured}
use nelm_operator.Controller.{Reconciler}
use nelm_operator.Examples.Cluster.{cluster}

abbrev pub config : OperatorConfig
config = record {
  default_service_account_name = "";
  leader_elect = true;
  max_concurrent_reconciles = pos 4;
  metrics_bind_address = ":8080";
  health_probe_bind_address = ":8081";
  metrics_secure = false;
  metrics_cert_dir = "";
  metrics_cert_name = "";
  metrics_cert_key = "";
  graceful_shutdown_timeout = pos 30000000000;
  watch_all_namespaces = true;
  watch_namespace = "";
  dependency_watch_label_selector = "";
  source_api_group = "source.toolkit.fluxcd.io";
  source_api_version = "v1";
  http_retry = pos 3;
  http_timeout = pos 60000000000;
  release_storage_driver = "secret";
  release_storage_sql_connection = "";
  kube_qps_limit = pos 30;
  kube_burst_limit = pos 100;
  kube_request_timeout = pos 0;
  network_parallelism = pos 30;
  deno_binary_path = "";
  temp_dir = "/tmp";
  log_level = "info";
}

abbrev pub reconciler : Reconciler
reconciler = record { config = config; has_event_recorder = false }

abbrev pub install_config : InstallConfig
install_config = record {
  timeout = none;
  auto_rollback = true;
  no_install_crds = false;
  delete_propagation = "";
  no_force_adoption = false;
  no_remove_manual_changes = false;
  no_default_patches = false;
  templates_allow_dns = false;
  retries = pos 3;
}

abbrev pub chart_ref : ChartSourceRef
chart_ref = record {
  api_version = "source.toolkit.fluxcd.io/v1";
  kind = "HelmChart";
  name = "shop";
  namespace = "";
}

abbrev pub spec : ReleaseSpec
spec = record {
  chart = none;
  chart_ref = some chart_ref;
  target_namespace = "";
  interval = pos 300000000000;
  timeout = pos 600000000000;
  suspend = false;
  values = none;
  values_from = [];
  no_default_values = false;
  set_root_context_json = [];
  secret_key_from = none;
  secret_values_from = [];
  service_account_name = "";
  no_default_secret_values = false;
  install = some install_config;
  rollback = none;
  uninstall = none;
  extra_annotations = [];
  extra_labels = [];
  runtime_annotations = [];
  runtime_labels = [];
  diff_patches = [];
  render_patches = [];
  app_version = "";
  release_info_annotations = [];
  release_labels = [];
  tracking = none;
  provenance = none;
  release_storage = none;
  validation = none;
  typescript = none;
}

abbrev pub status : ReleaseStatus
status = record {
  observed_generation = pos 1;
  conditions = [];
  revision = pos 4;
  revision_status = "deployed";
  last_action = "install";
  last_action_failures = pos 3;
  last_attempted_artifact_revision = "";
  last_attempted_artifact_digest = "";
  chart_source_phase = "";
  last_applied_chart_source = none;
  candidate_chart_source = none;
}

abbrev pub release : Release
release = record {
  name = "shop";
  namespace = "prod";
  generation = pos 2;
  is_deleting = false;
  finalizers = "nelm.werf.io/release" ∷ "other/hold" ∷ [];
  spec = spec;
  status = status;
}

abbrev pub deleted_release : Release
deleted_release = record release { is_deleting = true }

-- A chart source that the Release shares with another.
abbrev pub shared_source : Unstructured (Unit {0})
shared_source = record {
  key = record {
    group = "source.toolkit.fluxcd.io";
    version = "v1";
    kind = "GitRepository";
    namespace = "prod";
    name = "charts-1";
  };
  annotations = some (("nelm.werf.io/release-refs", "shop,blog") ∷ []);
  resource_version = "7";
  uid = "u1";
  content = tt;
}

abbrev pub reference : ChartSourceReference
reference = record {
  group = "source.toolkit.fluxcd.io";
  version = "v1";
  kind = "GitRepository";
  name = "charts-1";
  namespace = "prod";
}

-- The start of a call that meets this Release.
abbrev pub start_with : Release → State cluster
start_with rel = record {
  rel = rel;
  world = record { release = rel; source = some shared_source };
  trace = [];
}

-- A chart source as `internal/source` builds it, with the name that its spec hashes to.
abbrev pub source_object : SourceObject
source_object = record {
  api_version = "source.toolkit.fluxcd.io/v1";
  kind = "GitRepository";
  name = "charts-1";
  namespace = "prod";
  annotations = none;
  spec = SourceSpec.git_repository (record {
    url = "https://git/charts";
    reference = record { branch = "main"; tag = ""; sem_ver = ""; commit = ""; name = "" };
    provider = "";
    service_account_name = "";
    recurse_submodules = false;
    sparse_checkout = [];
    ignore = none;
    include = [];
    interval = pos 300000000000;
    timeout = none;
    verification = none;
    secret_ref = none;
    proxy_secret_ref = none;
  });
}

-- A Release that is moving to the source.
abbrev pub moving_release : Release
moving_release = record release {
  status = record status {
    chart_source_phase = "Pending";
    candidate_chart_source = some reference;
  };
}
