-- ===== src/World/Effects.antt =====
-- The calls that leave the process, as they are recorded, the newest first. The flag of a call
-- that can fail says whether it succeeded.
use nelm_operator.Base.{
  String, ℤ, Bool, true, false, Option, none, some, List, if◌then◌else◌, Error, is_changes_planned,
  Result, ok, err,
}
use nelm_operator.Api.{ReleaseStatus}

-- A `client.ObjectKey` with the object's kind.
pub record ObjectKey : Type 0 where
  pub group : String
  pub version : String
  pub kind : String
  pub namespace : String
  pub name : String

-- What a plan found.
pub data PlanOutcome : Type 0 where
  no_changes changes plan_failed : PlanOutcome

abbrev pub plan_outcome : Option Error → PlanOutcome
plan_outcome none = no_changes
plan_outcome (some e) = if is_changes_planned e then changes else plan_failed

pub data Effect : Type 0 where
  release_read : Bool → Effect
  status_updated : ReleaseStatus → Bool → Effect
  finalizers_patched : List String → Bool → Effect
  object_read : ObjectKey → Bool → Effect
  source_created : ObjectKey → String → Bool → Effect
  source_updated : ObjectKey → String → Bool → Effect
  object_deleted : ObjectKey → Bool → Effect
  helm_chart_applied : ObjectKey → Bool → Effect
  config_read : ObjectKey → Bool → Effect
  temp_dir_made : Bool → Effect
  temp_dir_removed : String → Effect
  file_used : String → Bool → Effect
  artifact_fetched : String → Bool → Effect
  storage_read : Bool → Effect
  install_planned : PlanOutcome → Effect
  installed : Bool → Effect
  rolled_back : Bool → Effect
  uninstalled : Bool → Effect
  labels_stamped : ℤ → Bool → Effect
  storage_opened : String → Bool → Effect
  event_emitted : String → String → Effect

abbrev pub is_ok {ℓ} : {A : Type ℓ} → Result A → Bool
is_ok (ok a) = true
is_ok (err e) = false
