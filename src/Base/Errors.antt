-- ===== src/Base/Errors.antt =====
-- Go's `error` values, as far as the program looks into them, and results that carry one.
use Prim.Native.String.{String, ◌++◌}
use mathlib.Core.Bool.{Bool, true, false}
use mathlib.Core.Option.{Option, none, some}
use nelm_operator.Base.Tests.{if◌then◌else◌}

-- The sentinels and types that `errors.Is`, `errors.As` and `apierrors.Is…` ask for, any other
-- error by its text, and `fmt.Errorf("context: %w", err)`. `panic` is a run-time panic, which the
-- controller's work queue recovers and takes as the error of the reconcile call.
pub data Error : Type 0 where
  not_found : String → Error
  conflict : String → Error
  source_not_ready : String → Error
  release_not_found : String → Error
  resource_changes_planned : String → Error
  release_install_planned : String → Error
  failure : String → Error
  panic : String → Error
  wrap : String → Error → Error

pub data Result {ℓ} (A : Type ℓ) : Type ℓ where
  ok : A → Result A
  err : Error → Result A

-- `err.Error()`
unfoldable pub message : Error → String
message (not_found text) = text
message (conflict text) = text
message (source_not_ready text) = "source not ready: " ++ text
message (release_not_found text) = text
message (resource_changes_planned text) = text
message (release_install_planned text) = text
message (failure text) = text
message (panic text) = text
message (wrap context e) = context ++ (": " ++ message e)

-- These look through the wrapping contexts, as `errors.Is` and `errors.As` do.
abbrev pub is_not_found : Error → Bool
is_not_found (not_found text) = true
is_not_found (wrap context e) = is_not_found e
is_not_found _ = false

abbrev pub is_conflict : Error → Bool
is_conflict (conflict text) = true
is_conflict (wrap context e) = is_conflict e
is_conflict _ = false

abbrev pub is_release_not_found : Error → Bool
is_release_not_found (release_not_found text) = true
is_release_not_found (wrap context e) = is_release_not_found e
is_release_not_found _ = false

abbrev pub is_changes_planned : Error → Bool
is_changes_planned (resource_changes_planned text) = true
is_changes_planned (release_install_planned text) = true
is_changes_planned (wrap context e) = is_changes_planned e
is_changes_planned _ = false

abbrev pub as_source_not_ready : Error → Option String
as_source_not_ready (source_not_ready text) = some text
as_source_not_ready (wrap context e) = as_source_not_ready e
as_source_not_ready _ = none

-- `client.IgnoreNotFound(err)`, after which `nil` carries the value given.
abbrev pub ignore_not_found {ℓ} : {A : Type ℓ} → A → Error → Result A
ignore_not_found a e = if is_not_found e then ok a else err e
