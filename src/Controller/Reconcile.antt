-- ===== src/Controller/Reconcile.antt =====
-- `Reconcile`, the entry point for one request.
use nelm_operator.Base.{
  String, Bool, false, Option, none, some, str_eq, not, if◌then◌else◌, Error, wrap, is_not_found,
  as_source_not_ready,
}
use nelm_operator.Api.{ReleaseStatus, ChartSourceRef, release_namespace}
use nelm_operator.Artifact.{ChartResult, fetch_chart}
use nelm_operator.World.{
  Env, StoredRelease, Act, ◌>>=◌, ◌>>◌, check, pure, gets, call, modify, set_status, release_read,
}
use nelm_operator.Controller.Returns.{Reconciler, Outcome, done, failed, requeue_now}
use nelm_operator.Controller.Storage.{
  get_release, detect_foreign_change, project_status_from_storage, update_status,
}
use nelm_operator.Controller.Outcomes.{with_temp_dir, handle_failure}
use nelm_operator.Controller.ChartRef.{ChartRefStep, resolved, finished, resolve_chart_ref}
use nelm_operator.Controller.Install.{reconcile_install}
use nelm_operator.Controller.Delete.{
  has_finalizer, add_finalizer, patch_finalizers, reconcile_delete,
}

-- The status fields that follow the chart.
unfoldable pub record_artifact : ChartResult → ReleaseStatus → ReleaseStatus
record_artifact chart st =
    let digested : ReleaseStatus =
      if not (str_eq st.last_attempted_artifact_digest chart.digest)
      then record st { last_attempted_artifact_digest = chart.digest }
      else st in
    if not (str_eq digested.last_attempted_artifact_revision chart.revision)
    then record digested { last_attempted_artifact_revision = chart.revision }
    else digested

module _ (env : Env) (r : Reconciler) where
  -- The source is not ready: the status is stored, and a watch event brings the next call.
  unfoldable pub await_source : Option StoredRelease → Act env Outcome
  await_source captured = do
    rel ← gets (λ rel. rel)
    project_status_from_storage env r rel.name (release_namespace rel) captured false
    check (update_status env) (λ e. pure (failed (wrap "update source-not-ready status" e)))
        (λ _. pure done)

  -- The chart could not be had: `errors.As` decides.
  unfoldable pub chart_missing : Option StoredRelease → Error → Option String → Act env Outcome
  unfolding await_source
  chart_missing captured e (some text) = await_source captured
  chart_missing captured e none =
      handle_failure env r false (wrap "resolve chart source" e) captured false

  unfoldable pub chart_failed : Option StoredRelease → Error → Act env Outcome
  unfolding chart_missing
  chart_failed captured e = chart_missing captured e (as_source_not_ready e)

  -- What is done in the temporary directory.
  unfoldable pub deploy_in : ChartSourceRef → Option StoredRelease → Bool → String → Act env Outcome
  unfolding chart_failed record_artifact
  deploy_in ref captured foreign_change dir =
      check (fetch_chart env r.config ref dir) (chart_failed captured) λ chart. do
        modify (set_status (record_artifact chart))
        reconcile_install env r chart dir captured foreign_change

  -- What follows the resolution of the chart reference.
  unfoldable pub deploy : ChartSourceRef → Act env Outcome
  unfolding deploy_in
  deploy ref = do
    rel ← gets (λ rel. rel)
    check (get_release env r rel.name (release_namespace rel))
        (λ e. handle_failure env r false (wrap "read release state" e) none false)
        λ captured. do
          now ← gets (λ rel. rel)
          with_temp_dir env r.config.temp_dir "nelm-reconcile-*"
              (λ e. handle_failure env r false (wrap "create temp directory" e) none false)
              (deploy_in ref captured (detect_foreign_change now.status.revision captured))

  unfoldable pub ensure_finalizer : Act env Outcome
  unfolding patch_finalizers
  ensure_finalizer =
      check (patch_finalizers env r add_finalizer) (λ e. pure (failed (wrap "add finalizer" e)))
        (λ _. pure requeue_now)

  -- `if done { return res, err }`
  unfoldable pub follow : ChartRefStep → Act env Outcome
  unfolding deploy
  follow (resolved ref) = deploy ref
  follow (finished outcome) = pure outcome

  unfoldable pub reconcile_chart : Act env Outcome
  unfolding follow
  reconcile_chart = do step ← resolve_chart_ref env r; follow step

  -- `Reconcile`, once the Release is read.
  unfoldable pub reconcile_release : Act env Outcome
  unfolding ensure_finalizer reconcile_chart
  reconcile_release = do
    rel ← gets (λ rel. rel)
    if rel.is_deleting
        then reconcile_delete env r
        else (if rel.spec.suspend
            then pure done
            else (if not (has_finalizer rel) then ensure_finalizer else reconcile_chart))

  -- `Reconcile`. A Release that is gone asks for nothing.
  unfoldable pub reconcile : String → String → Act env Outcome
  unfolding reconcile_release
  reconcile namespace name =
      check (call release_read (env.kube.get_release namespace name))
        (λ e. pure (if is_not_found e then done else failed e))
        λ rel. do modify (λ _. rel); reconcile_release
