-- ===== src/Phases.antt =====
-- The phases of a chart source: `resolveChartRef` of internal/controller/release_controller.go.
pub mod Still
pub mod Progress
pub mod References
pub mod Requeue
pub mod Bound
use nelm_operator.Base.{
  ℕ, suc, String, ◌≡◌, refl, Bool, true, false, Option, none, some, List, ◌∷◌, Error, wrap, Result,
  ok, err, str_eq, if◌then◌else◌,
}
use nelm_operator.Api.{Release, ReleaseStatus, ChartSourceReference}
use nelm_operator.Api.Constants.{chart_source_phase_pending, chart_source_phase_disconnecting}
use nelm_operator.Source.{SourceObject}
use nelm_operator.World.{Env, State, Effect}
use nelm_operator.Controller
use nelm_operator.Controller.{
  Reconciler, ChartRefStep, finished, failed, requeue_now, same_option, is_settled_phase,
}

-- How many stored steps lie between a status and the deployment from the source that is wanted.
unfoldable pub steps_left : ChartSourceReference → ReleaseStatus → ℕ
unfolding same_option
steps_left ref st =
    if is_settled_phase st.chart_source_phase
    then (if same_option st.last_applied_chart_source (some ref) then 0 else 3)
    else (if str_eq st.chart_source_phase chart_source_phase_pending
        then (if same_option st.candidate_chart_source (some ref) then 2 else 3)
        else (if str_eq st.chart_source_phase chart_source_phase_disconnecting
            then (if same_option st.candidate_chart_source (some ref) then 1 else 4)
            else 0))

-- A status of the kind is sent to the server, which takes it, and the Release is requeued, or
-- refuses it, and the call fails.
pub data Advanced {env : Env} (Q : ReleaseStatus → Type 0) : ChartRefStep × State env → Type 0 where
  accepted :
      (st : ReleaseStatus) (rel : Release) (w : env.World) (t : List Effect)
      → Q st
      → Advanced Q (
        finished requeue_now,
        record { rel = rel; world = w; trace = Effect.status_updated st true ∷ t },
      )
  refused :
      (st : ReleaseStatus) (e : Error) (rel : Release) (w : env.World) (t : List Effect)
      → Q st
      → Advanced Q (
        finished (failed e),
        record { rel = rel; world = w; trace = Effect.status_updated st false ∷ t },
      )

-- What `run_phase` may do: deploy from the source when no step is left; store a status that is one
-- step nearer; or report the error of the call on a source that the phase makes.
pub data PhaseStep (env : Env) (r : Reconciler) (obj : SourceObject) (ref : ChartSourceReference)
    (s : State env) : ChartRefStep × State env → Type 0 where
  deploys :
      steps_left ref s.rel.status ≡ 0
      → PhaseStep env r obj ref s (Controller.deploy_from env r obj s)
  advances :
      {out : ChartRefStep × State env}
      → Advanced (λ st. suc (steps_left ref st) ≡ steps_left ref s.rel.status) out
      → PhaseStep env r obj ref s out
  ensure_fails :
      (e : Error) (s' : State env)
      → Controller.ensure_chart_source_ref env r obj s ≡ (err e, s')
      → PhaseStep env r obj ref s
          (Controller.fail_resolving env r (wrap "ensure spec.chart source" e) s')
  cleanup_fails :
      (e : Error) (s' : State env)
      → Controller.cleanup_chart_source_ref env r s.rel.status.last_applied_chart_source s
        ≡ (err e, s')
      → PhaseStep env r obj ref s
          (Controller.fail_resolving env r (wrap "cleanup last applied chart source" e) s')
