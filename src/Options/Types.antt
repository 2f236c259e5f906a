-- ===== src/Options/Types.antt =====
-- The option structs of Nelm, with the fields that internal/controller/release_controller.go sets.
use nelm_operator.Base.{String, ℤ, Bool, Option, List, Dict}
use nelm_operator.Api.{Duration, Foreign, PatchMatcher}

pub record KubeConnectionOptions : Type 0 where
  pub kube_api_server_address : String
  pub kube_tls_ca_path : String
  pub kube_bearer_token_path : String
  pub kube_qps_limit : ℤ
  pub kube_burst_limit : ℤ
  pub kube_request_timeout : Duration
  pub kube_impersonate_user : String

pub record TrackingOptions : Type 0 where
  pub no_progress_table_print : Bool
  pub no_pod_logs : Bool
  pub no_final_tracking : Bool
  pub track_readiness_timeout : Duration
  pub track_creation_timeout : Duration
  pub track_deletion_timeout : Duration

pub record ResourceValidationOptions : Type 0 where
  pub no_resource_validation : Bool
  pub no_values_schema_validation : Bool
  pub validation_skip : List String
  pub validation_extra_schemas : List String
  pub validation_schema_cache_lifetime : Duration

pub record RuntimeOptions : Type 0 where
  pub validation : ResourceValidationOptions
  pub extra_annotations : Dict String
  pub extra_labels : Dict String
  pub extra_runtime_annotations : Dict String
  pub extra_runtime_labels : Dict String
  pub release_info_annotations : Dict String
  pub release_labels : Dict String
  pub release_storage_driver : String
  pub release_storage_sql_connection : String
  pub release_history_limit : ℤ
  pub patches_files : List String
  pub force_adoption : Bool
  pub no_install_standalone_crds : Bool
  pub default_delete_propagation : String
  pub no_remove_manual_changes : Bool
  pub default_patches_disable : Bool

pub record ValuesOptions : Type 0 where
  pub values_files : List String
  pub root_set_json : List String
  pub default_values_disable : Bool

pub record SecretValuesOptions : Type 0 where
  pub secret_key : String
  pub secret_values_files : List String
  pub default_secret_values_disable : Bool

-- `ReleasePlanInstallOptions` and `ReleaseInstallOptions` share these fields.
pub record ChartOptions : Type 0 where
  pub connection : KubeConnectionOptions
  pub runtime : RuntimeOptions
  pub values : ValuesOptions
  pub secret_values : SecretValuesOptions
  pub chart : String
  pub chart_app_version : String
  pub chart_provenance_keyring : String
  pub chart_provenance_strategy : String
  pub deno_binary_path : String
  pub ignore_bundle_js : Bool
  pub network_parallelism : ℤ
  pub templates_allow_dns : Bool
  pub temp_dir_path : String
  pub timeout : Duration

pub record PlanInstallOptions : Type 0 where
  pub shared : ChartOptions
  pub error_if_changes_planned : Bool

pub record InstallOptions : Type 0 where
  pub shared : ChartOptions
  pub tracking : TrackingOptions
  pub legacy_plan_artifact : Option Foreign
  pub plan_artifact_lifetime : Duration

pub record RollbackOptions : Type 0 where
  pub patches_files : List String
  pub connection : KubeConnectionOptions
  pub validation : ResourceValidationOptions
  pub tracking : TrackingOptions
  pub release_storage_driver : String
  pub release_storage_sql_connection : String
  pub network_parallelism : ℤ
  pub temp_dir_path : String
  pub timeout : Duration
  pub extra_runtime_annotations : Dict String
  pub extra_runtime_labels : Dict String
  pub release_info_annotations : Dict String
  pub release_labels : Dict String
  pub release_history_limit : ℤ
  pub force_adoption : Bool
  pub default_delete_propagation : String
  pub no_remove_manual_changes : Bool
  pub default_patches_disable : Bool
  pub revision : ℤ

pub record UninstallOptions : Type 0 where
  pub patches_files : List String
  pub connection : KubeConnectionOptions
  pub tracking : TrackingOptions
  pub release_storage_driver : String
  pub release_storage_sql_connection : String
  pub network_parallelism : ℤ
  pub temp_dir_path : String
  pub timeout : Duration
  pub release_history_limit : ℤ
  pub delete_release_namespace : Bool
  pub default_delete_propagation : String
  pub no_remove_manual_changes : Bool
  pub default_patches_disable : Bool

pub record ReleaseGetOptions : Type 0 where
  pub connection : KubeConnectionOptions
  pub output_no_print : Bool
  pub release_storage_driver : String
  pub release_storage_sql_connection : String
  pub revision : ℤ

-- `spec.Patch` and `spec.PatchesFile`.
pub record SpecPatch : Type 0 where
  pub match : PatchMatcher
  pub type : String
  pub patch : String

pub record PatchesFile : Type 0 where
  pub render_patches : List SpecPatch
  pub diff_patches : List SpecPatch

-- `values.ResolvedValues` of internal/values/values.go.
pub record ResolvedValues : Type 0 where
  pub values_files : List String
  pub secret_values_files : List String
  pub secret_key : String
  pub provenance_keyring_path : String
