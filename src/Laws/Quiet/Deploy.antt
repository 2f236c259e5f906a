-- ===== src/Laws/Quiet/Deploy.antt =====
-- The way from a request to an install, given that the install itself keeps the predicate.
use nelm_operator.Base.{String, Bool, false, Option, none, some, List, Error}
use nelm_operator.Api.{ChartSourceRef}
use nelm_operator.Artifact.{ChartResult}
use nelm_operator.World.{Env, Effect, StoredRelease}
use nelm_operator.Controller
use nelm_operator.Controller.{Reconciler, ChartRefStep, resolved, finished}
use nelm_operator.Laws.Keeps.{Keeps, OnTrace, trace_rules}
use nelm_operator.Laws.Services.{IsLawful}
use nelm_operator.Laws.Quiet.{Quiet, update_status-Keeps, project-Keeps, get_release-Keeps}
use nelm_operator.Laws.Quiet.Outcomes.{handle_failure-Keeps}
use nelm_operator.Laws.Quiet.ChartRef.{resolve_chart_ref-Keeps}
use nelm_operator.Laws.Quiet.Inputs.{fetch_chart-Keeps}
use nelm_operator.Laws.Quiet.Rollback.{Scoped}

module _ (env : Env) (r : Reconciler) {Q Inner : List Effect → Type 0} (quiet : Quiet Q)
    (within : Quiet Inner) (scoped : Scoped env Q Inner)
    (deployed : (chart : ChartResult) (dir : String) (captured : Option StoredRelease)
        (foreign : Bool)
      → Keeps (OnTrace Inner) (Controller.reconcile_install env r chart dir captured foreign)) where
  await_source-Keeps :
      (captured : Option StoredRelease)
      → Keeps (OnTrace Inner) (Controller.await_source env r captured)
  unfolding Controller.await_source
  await_source-Keeps captured =
      search (trace_rules, project-Keeps env r, update_status-Keeps env r) depth 9

  chart_missing-Keeps :
      (captured : Option StoredRelease) (e : Error) (text : Option String)
      → Keeps (OnTrace Inner) (Controller.chart_missing env r captured e text)
  unfolding Controller.chart_missing
  chart_missing-Keeps captured e (some text) = await_source-Keeps captured
  chart_missing-Keeps captured e none = handle_failure-Keeps env r within _ captured false

  deploy_in-Keeps :
      (ref : ChartSourceRef) (captured : Option StoredRelease) (foreign : Bool) (dir : String)
      → Keeps (OnTrace Inner) (Controller.deploy_in env r ref captured foreign dir)
  unfolding Controller.deploy_in
  deploy_in-Keeps ref captured foreign dir =
      search (trace_rules, fetch_chart-Keeps env, chart_missing-Keeps, deployed) depth 9

  deploy-Keeps : (ref : ChartSourceRef) → Keeps (OnTrace Q) (Controller.deploy env r ref)
  unfolding Controller.deploy
  deploy-Keeps ref =
      search
        (
          trace_rules,
          get_release-Keeps env r,
          handle_failure-Keeps env r,
          scoped.around,
          deploy_in-Keeps,
        )
        depth 12

  follow-Keeps : (step : ChartRefStep) → Keeps (OnTrace Q) (Controller.follow env r step)
  unfolding Controller.follow
  follow-Keeps (resolved ref) = deploy-Keeps ref
  follow-Keeps (finished outcome) = search trace_rules

  pub reconcile_chart-Keeps : IsLawful env → Keeps (OnTrace Q) (Controller.reconcile_chart env r)
  unfolding Controller.reconcile_chart
  reconcile_chart-Keeps laws =
      search (trace_rules, λ (q : Quiet Q). resolve_chart_ref-Keeps env r q laws, follow-Keeps)
