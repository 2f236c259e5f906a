-- ===== src/Laws/Quiet/Outcomes.antt =====
-- The ends of a reconcile call: a failure that no install caused, and a success.
use nelm_operator.Base.{String, Bool, false, Option, List, Error}
use nelm_operator.World.{Env, Effect, StoredRelease}
use nelm_operator.Controller
use nelm_operator.Controller.{Reconciler, Latest}
use nelm_operator.Laws.Keeps.{Keeps, OnTrace, trace_rules}
use nelm_operator.Laws.Quiet.{Quiet, update_status-Keeps, project-Keeps}

module _ (env : Env) (r : Reconciler) {Q : List Effect → Type 0} (quiet : Quiet Q) where
  give_up-Keeps : (e : Error) → Keeps (OnTrace Q) (Controller.give_up env r false e)
  unfolding Controller.give_up
  give_up-Keeps e = search (trace_rules, update_status-Keeps env r)

  pub schedule_retry-Keeps : (e : Error) → Keeps (OnTrace Q) (Controller.schedule_retry env r e)
  unfolding Controller.schedule_retry
  schedule_retry-Keeps e = search (trace_rules, update_status-Keeps env r)

  -- A failure that no install caused rolls nothing back.
  pub handle_failure-Keeps :
      (e : Error) (captured : Option StoredRelease) (refetch : Bool)
      → Keeps (OnTrace Q) (Controller.handle_failure env r false e captured refetch)
  unfolding Controller.handle_failure
  handle_failure-Keeps e captured refetch =
      search (trace_rules, project-Keeps env r, give_up-Keeps, schedule_retry-Keeps) depth 9

  pub handle_success-Keeps :
      (name namespace : String) (captured : Option StoredRelease) (refetch : Bool)
      → Keeps (OnTrace Q) (Controller.handle_success env r name namespace captured refetch)
  unfolding Controller.handle_success
  handle_success-Keeps name namespace captured refetch =
      search (trace_rules, project-Keeps env r, update_status-Keeps env r)
