-- ===== src/Controller/ChartRef.antt =====
-- `resolveChartRef`: the phases in which a Release moves from one chart source to another.
use nelm_operator.Base.{
  String, Bool, true, false, ◌&&◌, ◌||◌, not, Option, none, some, is_some, str_eq, if◌then◌else◌,
  Error, panic, wrap, Result,
}
use nelm_operator.Api.{Release, ReleaseStatus, ReleaseChart, ChartSourceRef, ChartSourceReference}
use nelm_operator.Api.Constants.{
  chart_source_phase_ready, chart_source_phase_pending, chart_source_phase_disconnecting,
}
use nelm_operator.Config.{OperatorConfig}
use nelm_operator.Source.{SourceObject, build_from_chart}
use nelm_operator.World.{Env, Act, ◌>>=◌, ◌>>◌, check, pure, gets, modify, set_status}
use nelm_operator.Controller.Returns.{Reconciler, Outcome, failed, requeue_now}
use nelm_operator.Controller.Storage.{update_status}
use nelm_operator.Controller.Outcomes.{handle_failure}
use nelm_operator.Controller.SourceRefs.{ensure_chart_source_ref, cleanup_chart_source_ref}
use nelm_operator.Controller.HelmChart.{ensure_helm_chart, cleanup_helm_chart}

-- The four results of `resolveChartRef`: a reference with `done` false, or a result with it true.
pub data ChartRefStep : Type 0 where
  resolved : ChartSourceRef → ChartRefStep
  finished : Outcome → ChartRefStep

-- `reflect.DeepEqual` on references.
unfoldable pub same_reference : ChartSourceReference → ChartSourceReference → Bool
same_reference a b =
    str_eq a.group b.group
    && (str_eq a.version b.version
        && (str_eq a.kind b.kind && (str_eq a.name b.name && str_eq a.namespace b.namespace)))

unfoldable pub same_option : Option ChartSourceReference → Option ChartSourceReference → Bool
unfolding same_reference
same_option none none = true
same_option none (some b) = false
same_option (some a) none = false
same_option (some a) (some b) = same_reference a b

-- The reference to an expected chart source.
unfoldable pub expected_reference : OperatorConfig → SourceObject → ChartSourceReference
expected_reference config obj = record {
  group = config.source_api_group;
  version = config.source_api_version;
  kind = obj.kind;
  name = obj.name;
  namespace = obj.namespace;
}

abbrev pub enter_pending : ChartSourceReference → ReleaseStatus → ReleaseStatus
enter_pending ref st = record st {
  chart_source_phase = chart_source_phase_pending;
  candidate_chart_source = some ref;
}

abbrev pub enter_disconnecting : ReleaseStatus → ReleaseStatus
enter_disconnecting st = record st { chart_source_phase = chart_source_phase_disconnecting }

abbrev pub enter_ready : ReleaseStatus → ReleaseStatus
enter_ready st = record st {
  chart_source_phase = chart_source_phase_ready;
  last_applied_chart_source = st.candidate_chart_source;
}

abbrev pub forget_sources : ReleaseStatus → ReleaseStatus
forget_sources st = record st {
  last_applied_chart_source = none;
  chart_source_phase = "";
  candidate_chart_source = none;
}

abbrev pub is_settled_phase : String → Bool
is_settled_phase phase = str_eq phase "" || str_eq phase chart_source_phase_ready

module _ (env : Env) (r : Reconciler) where
  -- The local `fail`.
  unfoldable pub fail_resolving : Error → Act env ChartRefStep
  fail_resolving e = do outcome ← handle_failure env r false e none false; pure (finished outcome)

  -- A change of the status that is stored, and the requeue behind it.
  unfoldable pub advance : (ReleaseStatus → ReleaseStatus) → Act env ChartRefStep
  unfolding update_status
  advance f = do
    modify (set_status f)
    check (update_status env) (λ e. pure (finished (failed e))) (λ _. pure (finished requeue_now))

  abbrev or_fail :
      {A : Type 0} → String → Act env (Result A) → (A → Act env ChartRefStep) → Act env ChartRefStep
  or_fail context m rest = check m (λ e. fail_resolving (wrap context e)) rest

  -- `spec.chart` is not set, and the status still names chart sources.
  unfoldable pub drop_sources : Act env ChartRefStep
  drop_sources = do
    st ← gets (λ rel. rel.status)
    or_fail "cleanup former spec.chart source"
        (cleanup_chart_source_ref env r st.last_applied_chart_source)
        λ _. do
          st ← gets (λ rel. rel.status)
          or_fail "cleanup former spec.chart source"
              (cleanup_chart_source_ref env r st.candidate_chart_source)
              λ _. do
                modify (set_status forget_sources)
                check (update_status env) (λ e. pure (finished (failed e)))
                    λ _.
                      or_fail "cleanup former spec.chart HelmChart" (cleanup_helm_chart env r)
                        (λ _. pure (finished requeue_now))

  -- `spec.chartRef`; its namespace is filled in in place.
  unfoldable pub fill_chart_ref : Release → Option ChartSourceRef → Act env ChartRefStep
  fill_chart_ref rel none = pure (finished (failed (panic "nil pointer dereference")))
  fill_chart_ref rel (some ref) =
      let filled : ChartSourceRef =
        if str_eq ref.namespace "" then record ref { namespace = rel.namespace } else ref in
      modify (λ rel. record rel { spec = record rel.spec { chart_ref = some filled } })
      >> pure (resolved filled)

  unfoldable pub use_chart_ref : Act env ChartRefStep
  unfolding fill_chart_ref
  use_chart_ref = do rel ← gets (λ rel. rel); fill_chart_ref rel rel.spec.chart_ref

  -- The phase `Pending`.
  unfoldable pub pending_phase : SourceObject → ChartSourceReference → Act env ChartRefStep
  unfolding advance
  pending_phase obj ref = do
    st ← gets (λ rel. rel.status)
    if not (same_option st.candidate_chart_source (some ref))
        then advance (λ st. record st { candidate_chart_source = some ref })
        else or_fail "ensure spec.chart source" (ensure_chart_source_ref env r obj)
            (λ _. advance enter_disconnecting)

  -- The phase `Disconnecting`.
  unfoldable pub disconnecting_phase : Act env ChartRefStep
  unfolding advance
  disconnecting_phase = do
    st ← gets (λ rel. rel.status)
    if is_some st.last_applied_chart_source
          && not (same_option st.last_applied_chart_source st.candidate_chart_source)
        then or_fail "cleanup last applied chart source"
            (cleanup_chart_source_ref env r st.last_applied_chart_source) (λ _. advance enter_ready)
        else advance enter_ready

  -- What follows the switch on the phase.
  unfoldable pub deploy_from : SourceObject → Act env ChartRefStep
  deploy_from obj =
      or_fail "ensure chart source HelmChart" (ensure_helm_chart env r obj.name)
        (λ ref. pure (resolved ref))

  -- The switch on the phase. A phase that is none of the four goes on to the deployment.
  unfoldable pub run_phase : SourceObject → ChartSourceReference → Act env ChartRefStep
  unfolding pending_phase disconnecting_phase deploy_from advance
  run_phase obj ref = do
    st ← gets (λ rel. rel.status)
    if is_settled_phase st.chart_source_phase
        then (if not (same_option st.last_applied_chart_source (some ref))
            then advance (enter_pending ref)
            else deploy_from obj)
        else (if str_eq st.chart_source_phase chart_source_phase_pending
            then pending_phase obj ref
            else (if str_eq st.chart_source_phase chart_source_phase_disconnecting
                then disconnecting_phase
                else deploy_from obj))

  -- The two forms of a chart.
  unfoldable pub resolve_for : Release → Option ReleaseChart → Act env ChartRefStep
  unfolding run_phase drop_sources use_chart_ref
  resolve_for rel none =
      if is_some rel.status.last_applied_chart_source || is_some rel.status.candidate_chart_source
      then drop_sources
      else use_chart_ref
  resolve_for rel (some chart) =
      or_fail "build source from spec.chart"
        (pure (
          build_from_chart env.host.sha256_hex env.host.marshal_spec r.config.source_api_group
            r.config.source_api_version rel chart))
        (λ obj. run_phase obj (expected_reference r.config obj))

  -- `resolveChartRef`
  unfoldable pub resolve_chart_ref : Act env ChartRefStep
  unfolding resolve_for
  resolve_chart_ref = do rel ← gets (λ rel. rel); resolve_for rel rel.spec.chart
