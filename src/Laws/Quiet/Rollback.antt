-- ===== src/Laws/Quiet/Rollback.antt =====
-- What follows a failed install: quiet calls, a temporary directory and at most a rollback.
use nelm_operator.Base.{String, Bool, Option, List, ◌∷◌, Error}
use nelm_operator.World.{Env, Act, Effect, StoredRelease, rolled_back}
use nelm_operator.Controller
use nelm_operator.Controller.{Reconciler, with_temp_dir}
use nelm_operator.Laws.Keeps.{Keeps, OnTrace, trace_rules}
use nelm_operator.Laws.Quiet.{Quiet, update_status-Keeps, project-Keeps}
use nelm_operator.Laws.Quiet.Outcomes.{schedule_retry-Keeps}
use nelm_operator.Laws.Quiet.Inputs.{build_rollback_options-Keeps}

-- A temporary directory around what keeps one predicate keeps another.
pub record Scoped (env : Env) (Q Inner : List Effect → Type 0) : Type 1 where
  pub around :
      (A : Type 0) (parent pattern : String) (fail : Error → Act env A) (rest : String → Act env A)
      → ((e : Error) → Keeps (OnTrace Q) (fail e))
      → ((dir : String) → Keeps (OnTrace Inner) (rest dir))
      → Keeps (OnTrace Q) (with_temp_dir env parent pattern fail rest)

module _ (env : Env) (r : Reconciler) {Q Inner : List Effect → Type 0} (quiet : Quiet Q)
    (within : Quiet Inner) (scoped : Scoped env Q Inner)
    (rolled : (b : Bool) (t : List Effect) → Inner t → Inner (rolled_back b ∷ t)) where
  record_rollback-Keeps : Keeps (OnTrace Inner) (Controller.record_rollback env r)
  unfolding Controller.record_rollback
  record_rollback-Keeps = search (trace_rules, project-Keeps env r)

  attempt_rollback-Keeps : Keeps (OnTrace Q) (Controller.attempt_rollback env r)
  unfolding Controller.attempt_rollback
  attempt_rollback-Keeps =
      search
        (
          trace_rules,
          rolled,
          scoped.around,
          build_rollback_options-Keeps env r,
          record_rollback-Keeps,
        )
        depth 12

  give_up-Keeps_any : (b : Bool) (e : Error) → Keeps (OnTrace Q) (Controller.give_up env r b e)
  unfolding Controller.give_up
  give_up-Keeps_any b e =
      search (trace_rules, λ (u : Unit {0}). attempt_rollback-Keeps, update_status-Keeps env r)
        depth 9

  pub handle_failure-Keeps_any :
      (b : Bool) (e : Error) (captured : Option StoredRelease) (refetch : Bool)
      → Keeps (OnTrace Q) (Controller.handle_failure env r b e captured refetch)
  unfolding Controller.handle_failure
  handle_failure-Keeps_any b e captured refetch =
      search (trace_rules, project-Keeps env r, give_up-Keeps_any, schedule_retry-Keeps env r) depth
        9
