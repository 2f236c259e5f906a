-- ===== src/Controller/Install.antt =====
-- `reconcileInstall`: plan, then adopt what matches or install what differs.
use nelm_operator.Base.{
  String, pos, eq_ℤ, Bool, true, false, ◌&&◌, not, Option, none, some, is_some, if◌then◌else◌,
  Error, wrap, is_changes_planned, Result,
}
use nelm_operator.Api.{Release, Duration, Foreign, release_namespace}
use nelm_operator.Options.{InstallOptions, PlanInstallOptions, ResolvedValues}
use nelm_operator.Artifact.{ChartResult}
use nelm_operator.Values.{resolve}
use nelm_operator.World.{
  Env, StoredRelease, Act, ◌>>=◌, ◌>>◌, check, pure, gets, run, call, modify, set_status,
  install_planned, plan_outcome, installed,
}
use nelm_operator.Controller.Returns.{Reconciler, Outcome}
use nelm_operator.Controller.Storage.{is_owned, stamp_ownership_marker, emit_event}
use nelm_operator.Controller.Options.{build_plan_install_options, build_install_options}
use nelm_operator.Controller.Outcomes.{handle_success, handle_failure}

abbrev plan_artifact_lifetime : Duration
plan_artifact_lifetime = pos 600000000000

-- A new generation starts the count of failures anew.
unfoldable pub reset_failures : Release → Release
unfolding eq_ℤ
reset_failures rel =
    if not (eq_ℤ rel.status.observed_generation rel.generation)
    then set_status (λ st. record st { last_action_failures = pos 0 }) rel
    else rel

module _ (env : Env) (r : Reconciler) where
  abbrev or_fail :
      {A : Type 0}
      → String
      → Option StoredRelease
      → Act env (Result A)
      → (A → Act env Outcome)
      → Act env Outcome
  or_fail context captured m rest =
      check m (λ e. handle_failure env r false (wrap context e) captured false) rest

  -- `action.ReleasePlanInstall`, recorded with what it found.
  unfoldable pub plan_install :
      String → String → PlanInstallOptions → Act env (Option Foreign × Option Error)
  plan_install name namespace options =
      run (λ plan. install_planned (plan_outcome plan.1))
        (env.nelm.release_plan_install name namespace options)

  -- The event of an install that undid a foreign change.
  unfoldable pub report_foreign_change : Bool → Option StoredRelease → Act env (Unit {0})
  report_foreign_change false captured = pure tt
  report_foreign_change true (some stored) = emit_event env r "Warning" "ForeignChangeReconciled"
  report_foreign_change true none = emit_event env r "Warning" "ForeignUninstallRepaired"

  -- The plan found nothing to change, and the release carries the marker by now.
  unfoldable pub finish_adoption : String → String → Option StoredRelease → Bool → Act env Outcome
  finish_adoption name namespace captured foreign_change = do
    if foreign_change && is_some captured
        then emit_event env r "Normal" "ForeignChangeAdopted"
        else pure tt
    handle_success env r name namespace captured false

  -- The plan found nothing to change.
  unfoldable pub adopt : String → String → Option StoredRelease → Bool → Act env Outcome
  unfolding finish_adoption
  adopt name namespace none foreign_change = finish_adoption name namespace none foreign_change
  adopt name namespace (some stored) foreign_change =
      if is_owned stored
      then finish_adoption name namespace (some stored) foreign_change
      else or_fail "stamp ownership marker" (some stored)
          (stamp_ownership_marker env r name namespace stored.revision)
          (λ _. finish_adoption name namespace (some stored) foreign_change)

  -- The install of what the plan found.
  unfoldable pub install :
      String
      → String
      → Option Foreign
      → InstallOptions
      → Option StoredRelease
      → Bool
      → Act env Outcome
  unfolding report_foreign_change
  install name namespace artifact options captured foreign_change =
      let planned : InstallOptions = record options {
        legacy_plan_artifact = artifact;
        plan_artifact_lifetime = plan_artifact_lifetime;
      } in
      check (call installed (env.nelm.release_install name namespace planned))
        (λ e. handle_failure env r true (wrap "install release" e) none true)
        λ _. do
          report_foreign_change foreign_change captured
          modify (set_status (λ st. record st { last_action = "install" }))
          handle_success env r name namespace none true

  -- The plan found changes.
  unfoldable pub install_changes :
      String
      → String
      → ChartResult
      → String
      → ResolvedValues
      → Option StoredRelease
      → Bool
      → Option Foreign
      → Act env Outcome
  unfolding install
  install_changes name namespace chart dir resolved captured foreign_change artifact =
      or_fail "build install options" captured
        (build_install_options env r chart.chart_path dir resolved)
        (λ options. install name namespace artifact options captured foreign_change)

  -- What follows the plan.
  unfoldable pub apply_plan :
      String
      → String
      → ChartResult
      → String
      → ResolvedValues
      → Option StoredRelease
      → Bool
      → Option Foreign × Option Error
      → Act env Outcome
  unfolding adopt install_changes
  apply_plan name namespace chart dir resolved captured foreign_change (artifact, none) =
      adopt name namespace captured foreign_change
  apply_plan name namespace chart dir resolved captured foreign_change (artifact, some e) =
      if not (is_changes_planned e)
      then handle_failure env r false (wrap "plan install" e) captured false
      else install_changes name namespace chart dir resolved captured foreign_change artifact

  -- `reconcileInstall`
  unfoldable pub reconcile_install :
      ChartResult → String → Option StoredRelease → Bool → Act env Outcome
  unfolding reset_failures plan_install apply_plan
  reconcile_install chart dir captured foreign_change = do
    modify reset_failures
    rel ← gets (λ rel. rel)
    let name = rel.name
    let namespace = release_namespace rel
    or_fail "resolve values" captured (resolve env chart.values_files dir) λ resolved.
        or_fail "build plan install options" captured
          (build_plan_install_options env r chart.chart_path dir resolved)
          λ options. do
            plan ← plan_install name namespace options
            apply_plan name namespace chart dir resolved captured foreign_change plan
