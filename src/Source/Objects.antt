-- ===== src/Source/Objects.antt =====
-- The Flux objects as internal/source fills them in: of each struct, the fields that the builders
-- set. A field of the Flux API that no builder sets keeps its zero value and is left out.
use nelm_operator.Base.{String, Bool, Option, List, Dict}
use nelm_operator.Api.{Duration, Foreign}

-- `&meta.LocalObjectReference{Name: …}` is the name.
pub record GitRepositoryRef : Type 0 where
  pub branch : String
  pub tag : String
  pub sem_ver : String
  pub commit : String
  pub name : String

pub record GitRepositorySpec : Type 0 where
  pub url : String
  pub reference : GitRepositoryRef
  pub provider : String
  pub service_account_name : String
  pub recurse_submodules : Bool
  pub sparse_checkout : List String
  pub ignore : Option String
  pub include : List Foreign
  pub interval : Duration
  pub timeout : Option Duration
  pub verification : Option Foreign
  pub secret_ref : Option String
  pub proxy_secret_ref : Option String

pub record HelmRepositorySpec : Type 0 where
  pub url : String
  pub type : String
  pub pass_credentials : Bool
  pub insecure : Bool
  pub interval : Duration
  pub timeout : Option Duration
  pub secret_ref : Option String
  pub cert_secret_ref : Option String

pub record BucketSpec : Type 0 where
  pub endpoint : String
  pub bucket_name : String
  pub provider : String
  pub region : String
  pub prefix : String
  pub service_account_name : String
  pub insecure : Bool
  pub ignore : Option String
  pub sts : Option Foreign
  pub interval : Duration
  pub timeout : Option Duration
  pub secret_ref : Option String
  pub cert_secret_ref : Option String
  pub proxy_secret_ref : Option String

pub record OciRepositoryRef : Type 0 where
  pub tag : String
  pub sem_ver : String
  pub semver_filter : String
  pub digest : String

pub record OciRepositorySpec : Type 0 where
  pub url : String
  pub reference : Option OciRepositoryRef
  pub provider : String
  pub service_account_name : String
  pub insecure : Bool
  pub ignore : Option String
  pub layer_selector : Option Foreign
  pub interval : Duration
  pub timeout : Option Duration
  pub verify : Option Foreign
  pub secret_ref : Option String
  pub proxy_secret_ref : Option String
  pub cert_secret_ref : Option String

pub data SourceSpec : Type 0 where
  git_repository : GitRepositorySpec → SourceSpec
  helm_repository : HelmRepositorySpec → SourceSpec
  bucket : BucketSpec → SourceSpec
  oci_repository : OciRepositorySpec → SourceSpec

-- A `client.Object` that one of the builders made. `annotations` is `none` for a nil map.
pub record SourceObject : Type 0 where
  pub api_version : String
  pub kind : String
  pub name : String
  pub namespace : String
  pub annotations : Option (Dict String)
  pub spec : SourceSpec

pub record HelmChartObject : Type 0 where
  pub api_version : String
  pub kind : String
  pub name : String
  pub namespace : String
  pub labels : Dict String
  pub chart : String
  pub version : String
  pub source_api_version : String
  pub source_kind : String
  pub source_name : String
  pub interval : Duration
  pub values_files : List String
  pub ignore_missing_values_files : Bool
  pub verify : Option Foreign
  pub reconcile_strategy : String

-- The kinds, and other constants of the Flux API that the builders name.
abbrev pub git_repository_kind : String
git_repository_kind = "GitRepository"

abbrev pub helm_repository_kind : String
helm_repository_kind = "HelmRepository"

abbrev pub bucket_kind : String
bucket_kind = "Bucket"

abbrev pub oci_repository_kind : String
oci_repository_kind = "OCIRepository"

abbrev pub helm_chart_kind : String
helm_chart_kind = "HelmChart"

abbrev pub helm_repository_type_default : String
helm_repository_type_default = "default"

abbrev pub helm_repository_type_oci : String
helm_repository_type_oci = "oci"

abbrev pub reconcile_strategy_chart_version : String
reconcile_strategy_chart_version = "ChartVersion"

abbrev pub flux_group_version : String
flux_group_version = "source.toolkit.fluxcd.io/v1"
