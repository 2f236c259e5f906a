-- ===== src/Examples/StatusTests.antt =====
-- The theorems on waiting and retrying at work on the small cluster.
use nelm_operator.Base.{List, pos, ◌≡◌, refl, false, none, some, ◌∷◌, failure, arith}
use nelm_operator.Controller
use nelm_operator.Controller.{
  backoff, contains, release_ref_names, with_names, detect_foreign_change, enter_disconnecting,
  add_finalizer, project, is_owned, source_key, expected_reference, same_option, same_reference,
  remove_finalizer,
}
use nelm_operator.Base.{Error, wrap, source_not_ready, ltb_ℤ}
use nelm_operator.Api.{ReleaseStatus}
use nelm_operator.World.{State, Effect, set_status, update_rel}
use nelm_operator.Status.{shown}
use nelm_operator.Base.{[]}
use nelm_operator.Options.{ResolvedValues}
use nelm_operator.TempDirs.{count, is_making, is_removal, reconcile-removes}
use nelm_operator.Status.Retries.{Failures, none_yet, one_more, handle_failure-stalled}
use nelm_operator.Api.{Release}
use nelm_operator.World.{◌>>=◌}
use nelm_operator.Examples.Cluster.{cluster}
use nelm_operator.Examples.Lawful.{cluster-IsLawful}
use nelm_operator.Examples.Releases.{status, reconciler, release, start_with}

abbrev not_ready : Error
not_ready = wrap "get chart" (source_not_ready "no artifact yet")

abbrev fresh_release : Release
fresh_release = record release { status = record status { last_action_failures = pos 0 } }

-- The status that the newest call stores.
abbrev status_of : List Effect → ReleaseStatus
status_of (Effect.status_updated st b ∷ t) = st
status_of _ = status

abbrev first_failure : State cluster
first_failure =
    (Controller.handle_failure cluster reconciler false (failure "no image") none false
      (start_with fresh_release)).1

abbrev failed_once : Release
failed_once = set_status (λ _. status_of first_failure.trace) fresh_release

one_failure : Failures cluster reconciler fresh_release 1 failed_once
unfolding Controller.handle_failure ◌>>=◌ Controller.project_status_from_storage
    Controller.schedule_retry Controller.update_status update_rel ltb_ℤ Controller.count_failure
one_failure =
    one_more 0 false (failure "no image") none false (start_with fresh_release) _ _ none_yet refl

handle_failure-stalled_example : shown "Stalled" failed_once.status ≡ some "False"
handle_failure-stalled_example =
    handle_failure-stalled cluster reconciler cluster-IsLawful fresh_release 1 3 failed_once refl
      refl one_failure (omega arith) (omega arith)

reconcile-removes_example :
    count is_making
      (Controller.reconcile cluster reconciler "prod" "shop" (start_with release)).1.trace
    ≡ count is_removal
        (Controller.reconcile cluster reconciler "prod" "shop" (start_with release)).1.trace
reconcile-removes_example =
    reconcile-removes cluster reconciler cluster-IsLawful "prod" "shop" (start_with release) refl

abbrev no_values : ResolvedValues
no_values = record {
  values_files = [];
  secret_values_files = [];
  secret_key = "";
  provenance_keyring_path = "";
}
