-- ===== src/Api/Resource.antt =====
-- `Release` with its spec and status, and its methods: api/v1alpha1/release_types.go.
use nelm_operator.Base.{String, ℤ, Bool, Option, none, some, List, Dict, str_eq, if◌then◌else◌}
use nelm_operator.Api.Common.{
  Duration, ChartSourceRef, ValuesReference, SecretKeyReference, Patch, ChartSourceReference,
  Condition,
}
use nelm_operator.Api.Chart.{ReleaseChart}
use nelm_operator.Api.Settings.{
  InstallConfig, RollbackConfig, UninstallConfig, TrackingConfig, ProvenanceConfig,
  ReleaseStorageConfig, ValidationConfig, TypescriptConfig,
}

-- `values` is the raw text of the inline values.
pub record ReleaseSpec : Type 0 where
  pub chart : Option ReleaseChart
  pub chart_ref : Option ChartSourceRef
  pub target_namespace : String
  pub interval : Duration
  pub timeout : Duration
  pub suspend : Bool
  pub values : Option String
  pub values_from : List ValuesReference
  pub no_default_values : Bool
  pub set_root_context_json : List String
  pub secret_key_from : Option SecretKeyReference
  pub secret_values_from : List ValuesReference
  pub service_account_name : String
  pub no_default_secret_values : Bool
  pub install : Option InstallConfig
  pub rollback : Option RollbackConfig
  pub uninstall : Option UninstallConfig
  pub extra_annotations : Dict String
  pub extra_labels : Dict String
  pub runtime_annotations : Dict String
  pub runtime_labels : Dict String
  pub diff_patches : List Patch
  pub render_patches : List Patch
  pub app_version : String
  pub release_info_annotations : Dict String
  pub release_labels : Dict String
  pub tracking : Option TrackingConfig
  pub provenance : Option ProvenanceConfig
  pub release_storage : Option ReleaseStorageConfig
  pub validation : Option ValidationConfig
  pub typescript : Option TypescriptConfig

pub record ReleaseStatus : Type 0 where
  pub observed_generation : ℤ
  pub conditions : List Condition
  pub revision : ℤ
  pub revision_status : String
  pub last_action : String
  pub last_action_failures : ℤ
  pub last_attempted_artifact_revision : String
  pub last_attempted_artifact_digest : String
  pub chart_source_phase : String
  pub last_applied_chart_source : Option ChartSourceReference
  pub candidate_chart_source : Option ChartSourceReference

-- Of the object metadata, the fields that the program reads. `is_deleting` is a deletion timestamp
-- that is not zero.
pub record Release : Type 0 where
  pub name : String
  pub namespace : String
  pub generation : ℤ
  pub is_deleting : Bool
  pub finalizers : List String
  pub spec : ReleaseSpec
  pub status : ReleaseStatus

-- `GetReleaseNamespace`
unfoldable pub release_namespace : Release → String
release_namespace r =
    if str_eq r.spec.target_namespace "" then r.namespace else r.spec.target_namespace

abbrev or_default : Option Duration → Duration → Duration
or_default none d = d
or_default (some t) d = t

-- `GetInstallTimeout`
unfoldable pub install_timeout : Release → Duration
install_timeout r = elim r.spec.install [
  | none ↦ r.spec.timeout
  | some install ↦ or_default install.timeout r.spec.timeout
]

-- `GetRollbackTimeout`
unfoldable pub rollback_timeout : Release → Duration
rollback_timeout r = elim r.spec.rollback [
  | none ↦ r.spec.timeout
  | some rollback ↦ or_default rollback.timeout r.spec.timeout
]

-- `GetUninstallTimeout`
unfoldable pub uninstall_timeout : Release → Duration
uninstall_timeout r = elim r.spec.uninstall [
  | none ↦ r.spec.timeout
  | some uninstall ↦ or_default uninstall.timeout r.spec.timeout
]
