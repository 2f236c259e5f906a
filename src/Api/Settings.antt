-- ===== src/Api/Settings.antt =====
-- The optional blocks of a Release's spec: api/v1alpha1/release_types.go.
use nelm_operator.Base.{String, ℤ, Bool, Option, List}
use nelm_operator.Api.Common.{Duration, SecretKeyReference}

pub record InstallConfig : Type 0 where
  pub timeout : Option Duration
  pub auto_rollback : Bool
  pub no_install_crds : Bool
  pub delete_propagation : String
  pub no_force_adoption : Bool
  pub no_remove_manual_changes : Bool
  pub no_default_patches : Bool
  pub templates_allow_dns : Bool
  pub retries : ℤ

pub record RollbackConfig : Type 0 where
  pub timeout : Option Duration
  pub delete_propagation : String
  pub no_force_adoption : Bool
  pub no_remove_manual_changes : Bool
  pub no_default_patches : Bool

pub record UninstallConfig : Type 0 where
  pub timeout : Option Duration
  pub delete_namespace : Bool
  pub delete_propagation : String
  pub no_remove_manual_changes : Bool
  pub no_default_patches : Bool

pub record TrackingConfig : Type 0 where
  pub readiness_timeout : Duration
  pub creation_timeout : Duration
  pub deletion_timeout : Duration
  pub pod_logs : Bool
  pub final_tracking : Bool

pub record ProvenanceConfig : Type 0 where
  pub strategy : String
  pub keyring_from : Option SecretKeyReference

pub record ReleaseStorageConfig : Type 0 where
  pub history_limit : ℤ

pub record ValidationConfig : Type 0 where
  pub no_resource_validation : Bool
  pub no_values_schema_validation : Bool
  pub skip : List String
  pub extra_schemas : List String
  pub schema_cache_lifetime : Duration

pub record TypescriptConfig : Type 0 where
  pub ignore_bundle_js : Bool
