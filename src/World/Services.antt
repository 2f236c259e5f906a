-- ===== src/World/Services.antt =====
-- The code outside the repository as parameters: the Kubernetes client, Nelm, the operating system
-- and the HTTP client, over one state `World` that they read and change.
use nelm_operator.Base.{String, ℤ, Option, List, Dict, Error, Result}
use nelm_operator.Api.{Duration, Foreign, Release, Condition}
use nelm_operator.Source.{SourceSpec, SourceObject, HelmChartObject}
use nelm_operator.Options.{
  KubeConnectionOptions, PlanInstallOptions, InstallOptions, RollbackOptions, UninstallOptions,
  ReleaseGetOptions, PatchesFile,
}
use nelm_operator.World.Effects.{ObjectKey}

-- An `unstructured.Unstructured`: the metadata that the program reads, and the whole content.
pub record Unstructured (Json : Type 0) : Type 0 where
  pub key : ObjectKey
  pub annotations : Option (Dict String)
  pub resource_version : String
  pub uid : String
  pub content : Json

pub record Preconditions : Type 0 where
  pub resource_version : String
  pub uid : String

-- `client.Client`, `meta.SetStatusCondition`, `retry.RetryOnConflict`, the readers of unstructured
-- content, and `controllerutil.SetControllerReference`. An update answers with the object as the
-- server has it. `nested_slice` gives `none` for an item that is not an object.
pub record Kube (World Json : Type 0) : Type 1 where
  pub get_release : String → String → World → Result Release × World
  pub update_status : Release → World → Result Release × World
  pub patch_release : Release → Release → World → Result Release × World
  pub get_object : ObjectKey → World → Result (Unstructured Json) × World
  pub create_source : SourceObject → World → Result (Unit {0}) × World
  pub update_object : Unstructured Json → World → Result (Unstructured Json) × World
  pub delete_object : ObjectKey → Option Preconditions → World → Result (Unit {0}) × World
  pub apply_helm_chart : HelmChartObject → World → Result (Unit {0}) × World
  pub get_config_map : String → String → World → Result (Dict String) × World
  pub get_secret : String → String → World → Result (Dict String) × World
  pub set_controller_reference : Release → HelmChartObject → Result HelmChartObject
  pub set_status_condition : Condition → List Condition → List Condition
  pub retry_on_conflict : (S : Type 0) → (S → Result (Unit {0}) × S) → S → Result (Unit {0}) × S
  pub nested_string : Json → List String → Result (Option String)
  pub nested_slice : Json → List String → Result (Option (List (Option Json)))
  pub nested_string_slice : Json → List String → Result (Option (List String))

-- A stored revision, as `action.ReleaseGet` reports it.
pub record StoredRelease : Type 0 where
  pub revision : ℤ
  pub status : String
  pub storage_labels : Dict String

-- The Nelm library. A plan comes with its error: the changes it found are one.
pub record Nelm (World : Type 0) : Type 0 where
  pub release_get : String → String → ReleaseGetOptions → World → Result StoredRelease × World
  pub release_plan_install :
      String → String → PlanInstallOptions → World → (Option Foreign × Option Error) × World
  pub release_install : String → String → InstallOptions → World → Result (Unit {0}) × World
  pub release_rollback : String → String → RollbackOptions → World → Result (Unit {0}) × World
  pub release_uninstall : String → String → UninstallOptions → World → Result (Unit {0}) × World
  pub new_kube_config : KubeConnectionOptions → String → World → Result Foreign × World
  pub new_client_factory : Foreign → World → Result Foreign × World
  pub new_release_storage : String → String → Foreign → String → World → Result Foreign × World
  pub update_labels : Foreign → String → ℤ → Dict String → World → Result (Unit {0}) × World
  pub default_validation_cache_lifetime : Duration

-- The operating system, the encoders and the HTTP client. `fetch` gives the response's status.
pub record Host (World : Type 0) : Type 0 where
  pub getenv : String → String
  pub join_host_port : String → String → String
  pub sha256_hex : String → String
  pub marshal_spec : SourceSpec → Result String
  pub marshal_patches : PatchesFile → Result String
  pub make_temp_dir : String → String → World → Result String × World
  pub remove_all : String → World → World
  pub create_temp : String → String → World → Result String × World
  pub write_file : String → String → World → Result (Unit {0}) × World
  pub close_file : String → World → Result (Unit {0}) × World
  pub remove_file : String → World → World
  pub fetch : String → String → ℤ → Duration → World → Result ℤ × World

pub record Env : Type 1 where
  pub World : Type 0
  pub Json : Type 0
  pub kube : Kube World Json
  pub nelm : Nelm World
  pub host : Host World
