-- ===== src/Examples/Tests.antt =====
-- The theorems at work on the small cluster.
use nelm_operator.Base.{
  ◌<>◌, ◌≤◌, List, pos, ◌≡◌, ◌↔◌, refl, true, false, none, some, [], ◌∷◌, failure, eq_ℤ, arith, ◌^◌,
  ◌*◌,
}
use Prim.Native.Nat.{min}
use nelm_operator.Controller
use nelm_operator.Controller.{
  backoff, detect_foreign_change, enter_disconnecting, source_key, expected_reference, same_option,
  same_reference,
}
use nelm_operator.Options.{ownership_labels}
use nelm_operator.Retry.{backoff-eq-min, backoff-eq-zero}
use nelm_operator.ForeignChange.{
  Diverged, detect_foreign_change_iff, detect_foreign_change-ownership_labels,
}
use nelm_operator.Order.{IsOrdered}
use nelm_operator.Order.Reconcile.{reconcile-IsOrdered}
use nelm_operator.Status.{Stored}
use nelm_operator.Status.Success.{Succeeded, handle_success-Stored}
use nelm_operator.Status.Failure.{Failed, handle_failure-Stored}
use nelm_operator.Phases.{PhaseStep}
use nelm_operator.Phases.Progress.{run_phase-PhaseStep}
use nelm_operator.SharedSources.Names.{Writes, with_release, ensure_attempt-Writes}
use nelm_operator.Separation.{Lacks, is_deployment, is_uninstall}
use nelm_operator.Separation.Reconcile.{reconcile-Lacks_deployment, reconcile-Lacks_uninstall}
use nelm_operator.Api.{Release, ValuesReference}
use nelm_operator.World.{◌>>=◌}
use nelm_operator.Phases.Bound.{Calls, next, last, Calls-bounded}
use nelm_operator.Watches.{extract_digest, has_at_sign}
use nelm_operator.Watches.Digest.{extract_digest_back}
use nelm_operator.Examples.Cluster.{cluster, stored, retry}
use nelm_operator.Examples.Lawful.{cluster-IsLawful}
use nelm_operator.Examples.Releases.{
  status, reconciler, release, deleted_release, shared_source, reference, start_with, source_object,
  moving_release,
}

reconcile-IsOrdered_example :
    IsOrdered (Controller.reconcile cluster reconciler "prod" "shop" (start_with release)).1.trace
reconcile-IsOrdered_example =
    reconcile-IsOrdered cluster reconciler cluster-IsLawful "prod" "shop" (start_with release) refl

handle_failure-Stored_example :
    Stored
      (Failed release)
      (Controller.handle_failure cluster reconciler true
        (failure "no image")
        none
        true
        (start_with release)).1.trace
handle_failure-Stored_example =
    handle_failure-Stored cluster reconciler cluster-IsLawful true (failure "no image") none true
      (start_with release)

handle_success-Stored_example :
    Stored
      (Succeeded release)
      (Controller.handle_success cluster reconciler "shop" "prod" none true
        (start_with release)).1.trace
handle_success-Stored_example =
    handle_success-Stored cluster reconciler cluster-IsLawful "shop" "prod" none true
      (start_with release)

run_phase-PhaseStep_example :
    PhaseStep cluster reconciler source_object reference
      (start_with moving_release)
      (Controller.run_phase cluster reconciler source_object reference (start_with moving_release))
run_phase-PhaseStep_example =
    run_phase-PhaseStep cluster reconciler cluster-IsLawful source_object reference
      (start_with moving_release)

ensure_attempt-Writes_example :
    Writes shared_source.key
      (with_release "shop" shared_source.annotations)
      (Controller.ensure_attempt cluster reconciler source_object (start_with release)).1.trace
ensure_attempt-Writes_example =
    ensure_attempt-Writes cluster reconciler source_object (start_with release) shared_source
      (start_with release).world refl refl

reconcile-Lacks_deployment_example :
    Lacks is_deployment
      (Controller.reconcile cluster reconciler "prod" "shop" (start_with deleted_release)).1.trace
reconcile-Lacks_deployment_example =
    reconcile-Lacks_deployment cluster reconciler cluster-IsLawful "prod" "shop"
      (start_with deleted_release) deleted_release (start_with deleted_release).world refl refl refl

reconcile-Lacks_uninstall_example :
    Lacks is_uninstall
      (Controller.reconcile cluster reconciler "prod" "shop" (start_with release)).1.trace
reconcile-Lacks_uninstall_example =
    reconcile-Lacks_uninstall cluster reconciler cluster-IsLawful "prod" "shop" (start_with release)
      release (start_with release).world refl refl refl

detect_foreign_change_iff_example :
    (detect_foreign_change (pos 3) (some stored) ≡ true)
    ↔ ((eq_ℤ (pos 3) (pos 0) ≡ false) × Diverged (pos 3) (some stored))
detect_foreign_change_iff_example = detect_foreign_change_iff (pos 3) (some stored)

detect_foreign_change-ownership_labels_example :
    detect_foreign_change (pos 3) (
      some (record {
        revision = pos 3;
        status = "deployed";
        storage_labels = ownership_labels (("team", "shop") ∷ []);
      }))
    ≡ false
detect_foreign_change-ownership_labels_example =
    detect_foreign_change-ownership_labels (pos 3) "deployed" (("team", "shop") ∷ [])

backoff-eq-min_example : backoff 2 ≡ pos (min (2 ^ 2 * 15000000000) 300000000000)
backoff-eq-min_example = backoff-eq-min 2 (omega arith)

backoff-eq-zero_example : backoff 55 ≡ pos 0
backoff-eq-zero_example = backoff-eq-zero 55 (omega arith)

abbrev pub config_refs : List ValuesReference
config_refs =
    record { kind = "ConfigMap"; name = "base"; data_key = ""; optional = false }
    ∷ record { kind = "Secret"; name = "extra"; data_key = "missing"; optional = true }
    ∷ []

abbrev pub fed_release : Release
fed_release = record release { spec = record release.spec { values_from = config_refs } }

extract_digest_back_example :
    (extract_digest ("6.5.0" <> ("@" <> "sha256:ab")) ≡ "sha256:ab")
    × (extract_digest "sha256:ab" ≡ "sha256:ab")
unfolding has_at_sign
extract_digest_back_example = extract_digest_back "6.5.0" "sha256:ab" refl refl

-- The Release takes up the source, and is requeued with its phase Pending.
taken_up : Calls cluster reconciler source_object reference 2 (start_with release)
unfolding Controller.run_phase Controller.advance Controller.update_status same_option
    same_reference ◌>>=◌ Controller.pending_phase Controller.ensure_chart_source_ref
    Controller.ensure_attempt Controller.update_names retry
taken_up = next 1 (start_with release) (start_with moving_release) refl refl (
    next 0 (start_with moving_release)
      (start_with (record release { status = enter_disconnecting moving_release.status })) refl refl
      (last _))

Calls-bounded_example : 2 ≤ 4
Calls-bounded_example =
    Calls-bounded cluster reconciler cluster-IsLawful source_object reference 2 (start_with release)
      taken_up
