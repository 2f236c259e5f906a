-- ===== src/Api/Chart.antt =====
-- `ReleaseChart` and the four chart sources of api/v1alpha1/release_types.go. `Foreign` stands for
-- a value of the Flux API that the program only carries from one struct to another.
use nelm_operator.Base.{String, Bool, Option, List}
use nelm_operator.Api.Common.{
  Duration, CredentialReference, ProxySettingsReference, CertificateReference,
}

abbrev pub Foreign : Type 0
Foreign = String

pub record GitRepositoryChartSource : Type 0 where
  pub url : String
  pub branch : String
  pub tag : String
  pub sem_ver : String
  pub commit : String
  pub reference : String
  pub path : String
  pub values_files : List String
  pub ignore_missing_values_files : Bool
  pub credentials_from : Option CredentialReference
  pub provider : String
  pub service_account_name : String
  pub proxy_settings_from : Option ProxySettingsReference
  pub submodules : Bool
  pub sparse_checkout : List String
  pub ignore : Option String
  pub verification : Option Foreign
  pub include : List Foreign
  pub interval : Duration
  pub timeout : Option Duration
  pub reconcile_strategy : String

pub record OciRepositoryChartSource : Type 0 where
  pub url : String
  pub tag : String
  pub sem_ver : String
  pub digest : String
  pub semver_filter : String
  pub credentials_from : Option CredentialReference
  pub certificate_from : Option CertificateReference
  pub proxy_settings_from : Option ProxySettingsReference
  pub service_account_name : String
  pub provider : String
  pub insecure : Bool
  pub ignore : Option String
  pub layer_selector : Option Foreign
  pub verify : Option Foreign
  pub interval : Duration
  pub timeout : Option Duration

pub record HelmRepositoryChartSource : Type 0 where
  pub url : String
  pub name : String
  pub version : String
  pub values_files : List String
  pub ignore_missing_values_files : Bool
  pub credentials_from : Option CredentialReference
  pub certificate_from : Option CertificateReference
  pub pass_credentials : Bool
  pub verify : Option Foreign
  pub insecure : Bool
  pub interval : Duration
  pub timeout : Option Duration

pub record BucketChartSource : Type 0 where
  pub endpoint : String
  pub bucket_name : String
  pub path : String
  pub values_files : List String
  pub ignore_missing_values_files : Bool
  pub provider : String
  pub region : String
  pub prefix : String
  pub credentials_from : Option CredentialReference
  pub certificate_from : Option CertificateReference
  pub proxy_settings_from : Option ProxySettingsReference
  pub service_account_name : String
  pub insecure : Bool
  pub ignore : Option String
  pub sts : Option Foreign
  pub interval : Duration
  pub timeout : Option Duration
  pub reconcile_strategy : String

pub record ReleaseChart : Type 0 where
  pub bucket : Option BucketChartSource
  pub git : Option GitRepositoryChartSource
  pub oci : Option OciRepositoryChartSource
  pub repo : Option HelmRepositoryChartSource
