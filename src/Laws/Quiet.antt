-- ===== src/Laws/Quiet.antt =====
-- Most of the controller's calls neither deploy, nor touch the finalizers, nor open a temporary
-- directory. A predicate on the record of calls that such calls keep is kept by every method that
-- makes no other.
pub mod Outcomes
pub mod SourceRefs
pub mod ChartRef
pub mod Inputs
pub mod Rollback
pub mod Deploy
use nelm_operator.Base.{
  String, ◌≡◌, refl, Bool, true, false, ◌||◌, Option, none, some, List, [], ◌∷◌, Error, Result, ok,
  err,
}
use nelm_operator.Api.{Release, Patch}
use nelm_operator.World.{Env, State, Act, Effect, StoredRelease, ◌>>=◌, run, check, pure}
use nelm_operator.Controller
use nelm_operator.Controller.{Reconciler}
use nelm_operator.Laws.Keeps.{Keeps, OnTrace, trace_rules, Keeps-bind, Keeps-check, Keeps-run}
use nelm_operator.Laws.Services.{IsLawful, Keeps-retry}

-- Nelm plans or changes a deployment, the finalizers of the Release are written, or a temporary
-- directory is made or removed.
abbrev pub is_marked : Effect → Bool
is_marked (Effect.install_planned clean) = true
is_marked (Effect.installed succeeded) = true
is_marked (Effect.rolled_back succeeded) = true
is_marked (Effect.uninstalled succeeded) = true
is_marked (Effect.finalizers_patched names succeeded) = true
is_marked (Effect.temp_dir_made succeeded) = true
is_marked (Effect.temp_dir_removed dir) = true
is_marked _ = false

pub record Quiet (Q : List Effect → Type 0) : Type 0 where
  pub cons : (e : Effect) (t : List Effect) → is_marked e ≡ false → Q t → Q (e ∷ t)

module _ (env : Env) (r : Reconciler) {Q : List Effect → Type 0} (quiet : Quiet Q) where
  pub update_status-Keeps : Keeps (OnTrace Q) (Controller.update_status env)
  unfolding Controller.update_status
  update_status-Keeps = search (trace_rules, quiet.cons)

  pub get_release-Keeps :
      (name namespace : String) → Keeps (OnTrace Q) (Controller.get_release env r name namespace)
  unfolding Controller.get_release
  get_release-Keeps name namespace = search (trace_rules, quiet.cons)

  pub project-Keeps :
      (name namespace : String) (captured : Option StoredRelease) (refetch : Bool)
      → Keeps
          (OnTrace Q)
          (Controller.project_status_from_storage env r name namespace captured refetch)
  unfolding Controller.project_status_from_storage
  project-Keeps name namespace captured refetch = search (trace_rules, get_release-Keeps)

  pub emit_event-Keeps :
      (kind reason : String) → Keeps (OnTrace Q) (Controller.emit_event env r kind reason)
  unfolding Controller.emit_event
  emit_event-Keeps kind reason = search (trace_rules, quiet.cons)

  pub write_patches_file-Keeps :
      (render diff : List Patch) (dir : String)
      → Keeps (OnTrace Q) (Controller.write_patches_file env render diff dir)
  unfolding Controller.write_patches_file
  write_patches_file-Keeps render diff dir = search (trace_rules, quiet.cons) depth 12

  pub patches_files-Keeps :
      (render diff : List Patch) (dir : String)
      → Keeps (OnTrace Q) (Controller.patches_files env render diff dir)
  unfolding Controller.patches_files
  patches_files-Keeps render diff dir = search (trace_rules, write_patches_file-Keeps)
