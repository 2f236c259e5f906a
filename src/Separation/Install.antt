-- ===== src/Separation/Install.antt =====
-- A predicate that the calls of a deployment keep is kept by the whole of a deployment.
use nelm_operator.Base.{String, Bool, true, false, Option, none, some, List, ◌∷◌, Error}
use nelm_operator.Api.{Foreign}
use nelm_operator.Artifact.{ChartResult}
use nelm_operator.Options.{InstallOptions, ResolvedValues}
use nelm_operator.World.{Env, Effect, PlanOutcome, StoredRelease}
use nelm_operator.Controller
use nelm_operator.Controller.{Reconciler}
use nelm_operator.Laws.Keeps.{Keeps, OnTrace, trace_rules}
use nelm_operator.Laws.Services.{IsLawful}
use nelm_operator.Laws.Quiet.{Quiet, emit_event-Keeps}
use nelm_operator.Laws.Quiet.Deploy.{reconcile_chart-Keeps}
use nelm_operator.Laws.Quiet.Outcomes.{handle_failure-Keeps, handle_success-Keeps}
use nelm_operator.Laws.Quiet.Inputs.{
  resolve-Keeps, build_plan_install_options-Keeps, build_install_options-Keeps,
  stamp_ownership_marker-Keeps,
}
use nelm_operator.Laws.Quiet.Rollback.{Scoped, handle_failure-Keeps_any}

module _ (env : Env) (r : Reconciler) {Q Inner : List Effect → Type 0} (quiet : Quiet Q)
    (within : Quiet Inner) (scoped : Scoped env Q Inner)
    (planned : (o : PlanOutcome) (t : List Effect) → Q t → Q (Effect.install_planned o ∷ t))
    (installed : (b : Bool) (t : List Effect) → Q t → Q (Effect.installed b ∷ t))
    (rolled : (b : Bool) (t : List Effect) → Inner t → Inner (Effect.rolled_back b ∷ t)) where
  report-Keeps_any :
      (foreign : Bool) (captured : Option StoredRelease)
      → Keeps (OnTrace Q) (Controller.report_foreign_change env r foreign captured)
  unfolding Controller.report_foreign_change
  report-Keeps_any false captured = search trace_rules
  report-Keeps_any true (some stored) = emit_event-Keeps env r quiet _ _
  report-Keeps_any true none = emit_event-Keeps env r quiet _ _

  finish_adoption-Keeps_any :
      (name namespace : String) (captured : Option StoredRelease) (foreign : Bool)
      → Keeps (OnTrace Q) (Controller.finish_adoption env r name namespace captured foreign)
  unfolding Controller.finish_adoption
  finish_adoption-Keeps_any name namespace captured foreign =
      search (trace_rules, emit_event-Keeps env r, handle_success-Keeps env r)

  adopt-Keeps_any :
      (name namespace : String) (captured : Option StoredRelease) (foreign : Bool)
      → Keeps (OnTrace Q) (Controller.adopt env r name namespace captured foreign)
  unfolding Controller.adopt
  adopt-Keeps_any name namespace none foreign =
      finish_adoption-Keeps_any name namespace none foreign
  adopt-Keeps_any name namespace (some stored) foreign =
      search
        (
          trace_rules,
          finish_adoption-Keeps_any,
          handle_failure-Keeps env r,
          stamp_ownership_marker-Keeps env r,
        )
        depth 9

  failed-Keeps_any :
      (b : Bool) (e : Error) (captured : Option StoredRelease) (refetch : Bool)
      → Keeps (OnTrace Q) (Controller.handle_failure env r b e captured refetch)
  failed-Keeps_any b e captured refetch =
      handle_failure-Keeps_any env r quiet within scoped rolled b e captured refetch

  install-Keeps_any :
      (name namespace : String) (artifact : Option Foreign) (options : InstallOptions)
      (captured : Option StoredRelease) (foreign : Bool)
      → Keeps
          (OnTrace Q)
          (Controller.install env r name namespace artifact options captured foreign)
  unfolding Controller.install
  install-Keeps_any name namespace artifact options captured foreign =
      search
        (trace_rules, installed, report-Keeps_any, failed-Keeps_any, handle_success-Keeps env r)
        depth 12

  install_changes-Keeps_any :
      (name namespace : String) (chart : ChartResult) (dir : String) (resolved : ResolvedValues)
      (captured : Option StoredRelease) (foreign : Bool) (artifact : Option Foreign)
      → Keeps (OnTrace Q) (
          Controller.install_changes env r name namespace chart dir resolved captured foreign
            artifact)
  unfolding Controller.install_changes
  install_changes-Keeps_any name namespace chart dir resolved captured foreign artifact =
      search (trace_rules, build_install_options-Keeps env r, install-Keeps_any, failed-Keeps_any)
        depth 9

  apply_plan-Keeps_any :
      (name namespace : String) (chart : ChartResult) (dir : String) (resolved : ResolvedValues)
      (captured : Option StoredRelease) (foreign : Bool) (plan : Option Foreign × Option Error)
      → Keeps
          (OnTrace Q)
          (Controller.apply_plan env r name namespace chart dir resolved captured foreign plan)
  unfolding Controller.apply_plan
  apply_plan-Keeps_any name namespace chart dir resolved captured foreign (artifact, none) =
      adopt-Keeps_any name namespace captured foreign
  apply_plan-Keeps_any name namespace chart dir resolved captured foreign (artifact, some e) =
      search (trace_rules, install_changes-Keeps_any, failed-Keeps_any)

  reconcile_install-Keeps_any :
      (chart : ChartResult) (dir : String) (captured : Option StoredRelease) (foreign : Bool)
      → Keeps (OnTrace Q) (Controller.reconcile_install env r chart dir captured foreign)
  unfolding Controller.reconcile_install Controller.plan_install
  reconcile_install-Keeps_any chart dir captured foreign =
      search
        (
          trace_rules,
          planned,
          failed-Keeps_any,
          resolve-Keeps env,
          build_plan_install_options-Keeps env r,
          apply_plan-Keeps_any,
        )
        depth 14

  -- Around it is the temporary directory of `Reconcile`.
  pub reconcile_chart-Keeps_any :
      {Outer : List Effect → Type 0}
      → Quiet Outer
      → Scoped env Outer Q
      → IsLawful env
      → Keeps (OnTrace Outer) (Controller.reconcile_chart env r)
  reconcile_chart-Keeps_any outside around laws =
      reconcile_chart-Keeps env r outside quiet around reconcile_install-Keeps_any laws
