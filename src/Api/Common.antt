-- ===== src/Api/Common.antt =====
-- The references and the small types of api/v1alpha1/release_types.go. A pointer is an `Option`.
use nelm_operator.Base.{String, ℤ, Bool, List, Dict}

-- `metav1.Duration` and `time.Duration`, in nanoseconds.
abbrev pub Duration : Type 0
Duration = ℤ

pub record ChartSourceRef : Type 0 where
  pub api_version : String
  pub kind : String
  pub name : String
  pub namespace : String

pub record ValuesReference : Type 0 where
  pub kind : String
  pub name : String
  pub data_key : String
  pub optional : Bool

pub record CredentialReference : Type 0 where
  pub kind : String
  pub name : String

pub record ProxySettingsReference : Type 0 where
  pub kind : String
  pub name : String

pub record CertificateReference : Type 0 where
  pub name : String

pub record SecretKeyReference : Type 0 where
  pub kind : String
  pub name : String
  pub data_key : String

pub record PatchMatcher : Type 0 where
  pub kinds : List String
  pub names : List String
  pub namespaces : List String
  pub groups : List String
  pub versions : List String
  pub charts : List String
  pub labels : Dict String
  pub annotations : Dict String

pub record Patch : Type 0 where
  pub match : PatchMatcher
  pub type : String
  pub patch : String

pub record ChartSourceReference : Type 0 where
  pub group : String
  pub version : String
  pub kind : String
  pub name : String
  pub namespace : String

-- `metav1.Condition`, less the transition time, which the program neither sets nor reads.
pub record Condition : Type 0 where
  pub type : String
  pub status : String
  pub observed_generation : ℤ
  pub reason : String
  pub message : String
