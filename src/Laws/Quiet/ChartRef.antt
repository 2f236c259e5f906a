-- ===== src/Laws/Quiet/ChartRef.antt =====
-- A chart reference is resolved by quiet calls.
use nelm_operator.Base.{String, Option, none, some, List, Error}
use nelm_operator.Api.{
  Release, OciRepositoryChartSource, ReleaseChart, ReleaseStatus, ChartSourceReference,
  ChartSourceRef,
}
use nelm_operator.Source.{SourceObject, HelmChartObject}
use nelm_operator.World.{Env, Effect}
use nelm_operator.Controller
use nelm_operator.Controller.{Reconciler, Latest}
use nelm_operator.Laws.Keeps.{Keeps, OnTrace, trace_rules}
use nelm_operator.Laws.Services.{IsLawful}
use nelm_operator.Laws.Quiet.{Quiet, update_status-Keeps}
use nelm_operator.Laws.Quiet.Outcomes.{handle_failure-Keeps}
use nelm_operator.Laws.Quiet.SourceRefs.{ensure-Keeps, cleanup-Keeps}

module _ (env : Env) (r : Reconciler) {Q : List Effect → Type 0} (quiet : Quiet Q) where
  apply_helm_chart-Keeps :
      (obj : HelmChartObject) → Keeps (OnTrace Q) (Controller.apply_helm_chart env r obj)
  unfolding Controller.apply_helm_chart
  apply_helm_chart-Keeps obj = search (trace_rules, quiet.cons) depth 9

  deploy_chart-Keeps :
      (rel : Release) (name : String) (obj : Option HelmChartObject)
      (oci : Option OciRepositoryChartSource)
      → Keeps (OnTrace Q) (Controller.deploy_chart env r rel name obj oci)
  unfolding Controller.deploy_chart
  deploy_chart-Keeps rel name (some obj) oci = apply_helm_chart-Keeps obj
  deploy_chart-Keeps rel name none (some _) = search trace_rules
  deploy_chart-Keeps rel name none none = search trace_rules

  ensure_for-Keeps :
      (rel : Release) (name : String) (chart : Option ReleaseChart)
      → Keeps (OnTrace Q) (Controller.ensure_for env r rel name chart)
  unfolding Controller.ensure_for
  ensure_for-Keeps rel name none = search trace_rules
  ensure_for-Keeps rel name (some chart) = deploy_chart-Keeps rel name _ chart.oci

  ensure_helm_chart-Keeps :
      (name : String) → Keeps (OnTrace Q) (Controller.ensure_helm_chart env r name)
  unfolding Controller.ensure_helm_chart
  ensure_helm_chart-Keeps name = search (trace_rules, ensure_for-Keeps)

  cleanup_helm_chart-Keeps : Keeps (OnTrace Q) (Controller.cleanup_helm_chart env r)
  unfolding Controller.cleanup_helm_chart
  cleanup_helm_chart-Keeps = search (trace_rules, quiet.cons) depth 9

  fail_resolving-Keeps : (e : Error) → Keeps (OnTrace Q) (Controller.fail_resolving env r e)
  unfolding Controller.fail_resolving
  fail_resolving-Keeps e = search (trace_rules, handle_failure-Keeps env r)

  advance-Keeps :
      (f : ReleaseStatus → ReleaseStatus) → Keeps (OnTrace Q) (Controller.advance env r f)
  unfolding Controller.advance
  advance-Keeps f = search (trace_rules, update_status-Keeps env r)

  module _ (laws : IsLawful env) where
    drop_sources-Keeps : Keeps (OnTrace Q) (Controller.drop_sources env r)
    unfolding Controller.drop_sources
    drop_sources-Keeps =
        search
          (
            trace_rules,
            update_status-Keeps env r,
            fail_resolving-Keeps,
            λ (ref : Option ChartSourceReference). cleanup-Keeps env r quiet laws ref,
            cleanup_helm_chart-Keeps,
          )
          depth 12

    fill_chart_ref-Keeps :
        (rel : Release) (ref : Option ChartSourceRef)
        → Keeps (OnTrace Q) (Controller.fill_chart_ref env r rel ref)
    unfolding Controller.fill_chart_ref
    fill_chart_ref-Keeps rel none = search trace_rules
    fill_chart_ref-Keeps rel (some ref) = search trace_rules

    pending_phase-Keeps :
        (obj : SourceObject) (ref : ChartSourceReference)
        → Keeps (OnTrace Q) (Controller.pending_phase env r obj ref)
    unfolding Controller.pending_phase
    pending_phase-Keeps obj ref =
        search
          (
            trace_rules,
            advance-Keeps,
            fail_resolving-Keeps,
            λ (obj : SourceObject). ensure-Keeps env r quiet laws obj,
          )
          depth 9

    disconnecting_phase-Keeps : Keeps (OnTrace Q) (Controller.disconnecting_phase env r)
    unfolding Controller.disconnecting_phase
    disconnecting_phase-Keeps =
        search
          (
            trace_rules,
            advance-Keeps,
            fail_resolving-Keeps,
            λ (ref : Option ChartSourceReference). cleanup-Keeps env r quiet laws ref,
          )
          depth 9

    deploy_from-Keeps : (obj : SourceObject) → Keeps (OnTrace Q) (Controller.deploy_from env r obj)
    unfolding Controller.deploy_from
    deploy_from-Keeps obj = search (trace_rules, fail_resolving-Keeps, ensure_helm_chart-Keeps)

    run_phase-Keeps :
        (obj : SourceObject) (ref : ChartSourceReference)
        → Keeps (OnTrace Q) (Controller.run_phase env r obj ref)
    unfolding Controller.run_phase
    run_phase-Keeps obj ref =
        search
          (
            trace_rules, advance-Keeps, pending_phase-Keeps, disconnecting_phase-Keeps,
            deploy_from-Keeps,
          )
          depth 9

    resolve_for-Keeps :
        (rel : Release) (chart : Option ReleaseChart)
        → Keeps (OnTrace Q) (Controller.resolve_for env r rel chart)
    unfolding Controller.resolve_for Controller.use_chart_ref
    resolve_for-Keeps rel none =
        search (trace_rules, drop_sources-Keeps, fill_chart_ref-Keeps) depth 9
    resolve_for-Keeps rel (some chart) = search (trace_rules, fail_resolving-Keeps, run_phase-Keeps)

    pub resolve_chart_ref-Keeps : Keeps (OnTrace Q) (Controller.resolve_chart_ref env r)
    unfolding Controller.resolve_chart_ref
    resolve_chart_ref-Keeps = search (trace_rules, resolve_for-Keeps)
