-- ===== src/Separation/Delete.antt =====
-- A predicate that the calls of a deletion keep is kept by the whole of a deletion.
use nelm_operator.Base.{String, Bool, List, ◌∷◌, Option}
use nelm_operator.Api.{ChartSourceReference, Release}
use nelm_operator.World.{Env, Effect}
use nelm_operator.Controller
use nelm_operator.Controller.{Reconciler, remove_finalizer}
use nelm_operator.Laws.Keeps.{Keeps, OnTrace, trace_rules}
use nelm_operator.Laws.Services.{IsLawful}
use nelm_operator.Laws.Quiet.{Quiet, update_status-Keeps}
use nelm_operator.Laws.Quiet.SourceRefs.{cleanup-Keeps}
use nelm_operator.Laws.Quiet.Inputs.{build_uninstall_options-Keeps}
use nelm_operator.Laws.Quiet.Rollback.{Scoped}
use nelm_operator.Order.Delete.{patch_finalizers-Keeps}

module _ (env : Env) (r : Reconciler) {Q : List Effect → Type 0}
    (patched : (names : List String) (b : Bool) (t : List Effect)
      → Q t
      → Q (Effect.finalizers_patched names b ∷ t)) where
  pub patch-Keeps_any :
      (f : Release → Release) → Keeps (OnTrace Q) (Controller.patch_finalizers env r f)
  patch-Keeps_any f = patch_finalizers-Keeps env r f (λ rel. patched _)

module _ (env : Env) (r : Reconciler) (laws : IsLawful env) {Q Inner : List Effect → Type 0}
    (quiet : Quiet Q) (within : Quiet Inner) (scoped : Scoped env Q Inner)
    (patched : (names : List String) (b : Bool) (t : List Effect)
      → Inner t
      → Inner (Effect.finalizers_patched names b ∷ t))
    (uninstalled : (b : Bool) (t : List Effect) → Inner t → Inner (Effect.uninstalled b ∷ t)) where
  source-Keeps_any : Quiet Inner → Keeps (OnTrace Inner) (Controller.release_source env r)
  unfolding Controller.release_source
  source-Keeps_any within =
      search
        (trace_rules, λ (ref : Option ChartSourceReference). cleanup-Keeps env r within laws ref)

  finish_delete-Keeps_any : Quiet Inner → Keeps (OnTrace Inner) (Controller.finish_delete env r)
  unfolding Controller.finish_delete
  finish_delete-Keeps_any within =
      search
        (trace_rules, update_status-Keeps env r, source-Keeps_any, patch-Keeps_any env r patched)
        depth 14

  uninstall_in-Keeps_any :
      (dir : String) → Keeps (OnTrace Inner) (Controller.uninstall_in env r dir)
  unfolding Controller.uninstall_in
  uninstall_in-Keeps_any dir =
      search
        (trace_rules, uninstalled, build_uninstall_options-Keeps env r, finish_delete-Keeps_any)
        depth 14

  pub reconcile_delete-Keeps_any : Keeps (OnTrace Q) (Controller.reconcile_delete env r)
  unfolding Controller.reconcile_delete
  reconcile_delete-Keeps_any =
      search (trace_rules, update_status-Keeps env r, scoped.around, uninstall_in-Keeps_any) depth
        14
