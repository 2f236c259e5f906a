-- ===== src/Options/Shared.antt =====
-- The option builders that touch nothing outside: internal/controller/release_controller.go.
use nelm_operator.Base.{
  String, ◌<>◌, pos, Bool, true, false, not, none, some, List, [], ◌∷◌, Dict, insert, copy_into,
  str_eq, if◌then◌else◌,
}
use nelm_operator.Api.{Duration, Release, Patch, release_namespace}
use nelm_operator.Config.{OperatorConfig}
use nelm_operator.Options.Types.{
  KubeConnectionOptions, TrackingOptions, ResourceValidationOptions, ValuesOptions,
  SecretValuesOptions, ReleaseGetOptions, SpecPatch, ResolvedValues,
}

abbrev pub ownership_marker_key : String
ownership_marker_key = "nelm.werf.io/owned-by"

abbrev pub ownership_marker_value : String
ownership_marker_value = "nelm-operator"

-- `ownershipLabels`: the user's labels, with the marker forced on.
unfoldable pub ownership_labels : Dict String → Dict String
unfolding insert copy_into
ownership_labels user_labels =
    insert ownership_marker_key ownership_marker_value (copy_into [] user_labels)

-- The account that `buildKubeConnectionOptions` impersonates: that of the Release wins.
unfoldable pub service_account : OperatorConfig → Release → String
service_account config rel =
    let default_account =
      if str_eq config.default_service_account_name ""
      then ""
      else config.default_service_account_name in
    if str_eq rel.spec.service_account_name ""
    then default_account
    else rel.spec.service_account_name

-- `net.JoinHostPort` puts a host that holds a colon in brackets: it is a parameter.
module _ (getenv : String → String) (join_host_port : String → String → String) where
  -- `buildKubeConnectionOptions`
  unfoldable pub build_kube_connection_options : OperatorConfig → Release → KubeConnectionOptions
  unfolding service_account
  build_kube_connection_options config rel =
      let host = getenv "KUBERNETES_SERVICE_HOST" in
      let port_set = getenv "KUBERNETES_SERVICE_PORT" in
      let port = if str_eq port_set "" then "443" else port_set in
      let account = service_account config rel in
      record {
        kube_api_server_address = "https://" <> join_host_port host port;
        kube_tls_ca_path = "/var/run/secrets/kubernetes.io/serviceaccount/ca.crt";
        kube_bearer_token_path = "/var/run/secrets/kubernetes.io/serviceaccount/token";
        kube_qps_limit = config.kube_qps_limit;
        kube_burst_limit = config.kube_burst_limit;
        kube_request_timeout = config.kube_request_timeout;
        kube_impersonate_user =
            if str_eq account ""
            then ""
            else "system:serviceaccount:" <> (release_namespace rel <> (":" <> account));
      }

  -- The options that `getRelease` passes.
  unfoldable pub release_get_options : OperatorConfig → Release → ReleaseGetOptions
  unfolding build_kube_connection_options
  release_get_options config rel = record {
    connection = build_kube_connection_options config rel;
    output_no_print = true;
    release_storage_driver = config.release_storage_driver;
    release_storage_sql_connection = config.release_storage_sql_connection;
    revision = pos 0;
  }

-- `buildTrackingOptions`
unfoldable pub build_tracking_options : Release → TrackingOptions
build_tracking_options rel = elim rel.spec.tracking [
  | none ↦ record {
    no_progress_table_print = true;
    no_pod_logs = true;
    no_final_tracking = false;
    track_readiness_timeout = pos 0;
    track_creation_timeout = pos 0;
    track_deletion_timeout = pos 0;
  }
  | some t ↦ record {
    no_progress_table_print = true;
    no_pod_logs = not t.pod_logs;
    no_final_tracking = not t.final_tracking;
    track_readiness_timeout = t.readiness_timeout;
    track_creation_timeout = t.creation_timeout;
    track_deletion_timeout = t.deletion_timeout;
  }
]

-- `buildValidationOptions`; `default_lifetime` is Nelm's default cache lifetime.
unfoldable pub build_validation_options : Duration → Release → ResourceValidationOptions
build_validation_options default_lifetime rel = elim rel.spec.validation [
  | none ↦ record {
    no_resource_validation = false;
    no_values_schema_validation = false;
    validation_skip = [];
    validation_extra_schemas = [];
    validation_schema_cache_lifetime = default_lifetime;
  }
  | some v ↦ record {
    no_resource_validation = v.no_resource_validation;
    no_values_schema_validation = v.no_values_schema_validation;
    validation_skip = v.skip;
    validation_extra_schemas = v.extra_schemas;
    validation_schema_cache_lifetime = v.schema_cache_lifetime;
  }
]

-- `specPatches`
unfoldable pub spec_patches : List Patch → List SpecPatch
spec_patches [] = []
spec_patches (p ∷ patches) =
    record { match = p.match; type = p.type; patch = p.patch } ∷ spec_patches patches

-- `buildValuesOptions`
unfoldable pub build_values_options : Release → ResolvedValues → ValuesOptions
build_values_options rel resolved = record {
  values_files = resolved.values_files;
  root_set_json = rel.spec.set_root_context_json;
  default_values_disable = rel.spec.no_default_values;
}

-- `buildSecretValuesOptions`
unfoldable pub build_secret_values_options : Release → ResolvedValues → SecretValuesOptions
build_secret_values_options rel resolved = record {
  secret_key = resolved.secret_key;
  secret_values_files = resolved.secret_values_files;
  default_secret_values_disable = rel.spec.no_default_secret_values;
}

-- `provenanceStrategy`
unfoldable pub provenance_strategy : Release → String
provenance_strategy rel = elim rel.spec.provenance [ none ↦ "" | some p ↦ p.strategy ]

-- `installTemplatesAllowDNS`
unfoldable pub install_templates_allow_dns : Release → Bool
install_templates_allow_dns rel = elim rel.spec.install [
  | none ↦ false
  | some install ↦ install.templates_allow_dns
]

-- `typescriptIgnoreBundleJS`
unfoldable pub typescript_ignore_bundle_js : Release → Bool
typescript_ignore_bundle_js rel = elim rel.spec.typescript [
  | none ↦ false
  | some t ↦ t.ignore_bundle_js
]
