-- ===== src/Controller/Outcomes.antt =====
-- `handleSuccess`, `handleFailure` and `attemptRollback`.
use nelm_operator.Base.{
  String, ◌<>◌, ℤ, pos, increment, ltb_ℤ, show_ℤ, Bool, true, false, ◌&&◌, Option, none, some,
  if◌then◌else◌, Error, panic, wrap, message,
}
use nelm_operator.Api.{Release, ReleaseStatus, Condition, release_namespace}
use nelm_operator.World.{
  Env, StoredRelease, Act, ◌>>=◌, ◌>>◌, check, pure, gets, call, leave, update_rel, modify,
  set_status, temp_dir_made, temp_dir_removed, rolled_back,
}
use nelm_operator.Controller.Returns.{Reconciler, Outcome, done, failed, requeue_in}
use nelm_operator.Controller.Storage.{update_status, set_condition, project_status_from_storage}
use nelm_operator.Controller.Options.{build_rollback_options}
use nelm_operator.Controller.Backoff.{retry_delay}

-- `condition type status generation reason message`
abbrev pub condition : String → String → ℤ → String → String → Condition
condition type status generation reason text = record {
  type = type;
  status = status;
  observed_generation = generation;
  reason = reason;
  message = text;
}

abbrev pub max_retries : Release → ℤ
max_retries rel = elim rel.spec.install [ none ↦ pos 0 | some install ↦ install.retries ]

abbrev pub auto_rollback : Release → Bool
auto_rollback rel = elim rel.spec.install [ none ↦ false | some install ↦ install.auto_rollback ]

-- `tempDir, err := os.MkdirTemp(…)` with its deferred removal around the rest of the method.
unfoldable pub with_temp_dir :
    {A : Type 0} (env : Env)
    → String
    → String
    → (Error → Act env A)
    → (String → Act env A)
    → Act env A
with_temp_dir env parent pattern fail rest =
    check (call temp_dir_made (env.host.make_temp_dir parent pattern)) fail
      λ dir. do a ← rest dir; leave (temp_dir_removed dir) (env.host.remove_all dir); pure a

module _ (env : Env) where
  -- What `handleSuccess` writes into the status.
  unfoldable pub mark_success : Release → ReleaseStatus → ReleaseStatus
  unfolding set_condition
  mark_success rel st =
      let g = rel.generation in
      set_condition env (condition "Stalled" "False" g "Succeeded" "") (
        set_condition env (condition "Reconciling" "False" g "Succeeded" "") (
          set_condition env
            (condition "Ready" "True" g "InstallSucceeded"
              ("Release install complete, revision " <> show_ℤ st.revision))
            (record st { last_action_failures = pos 0; observed_generation = g })))

  -- The conditions of `handleFailure` once the retries are exhausted.
  unfoldable pub mark_stalled : Error → Release → ReleaseStatus → ReleaseStatus
  unfolding set_condition
  mark_stalled e rel st =
      let g = rel.generation in
      set_condition env (condition "Reconciling" "False" g "RetriesExhausted" "") (
        set_condition env (condition "Ready" "False" g "InstallFailed" (message e))
          (set_condition env (condition "Stalled" "True" g "RetriesExhausted" (message e)) st))

  -- The conditions of `handleFailure` while a retry is left.
  unfoldable pub mark_retrying : Error → Release → ReleaseStatus → ReleaseStatus
  unfolding set_condition
  mark_retrying e rel st =
      let g = rel.generation in
      set_condition env (condition "Stalled" "False" g "RetryPending" "") (
        set_condition env
          (condition "Reconciling" "True" g "RetryPending"
            ("Retry " <> (show_ℤ st.last_action_failures <> (" of " <> show_ℤ (max_retries rel)))))
          (set_condition env (condition "Ready" "False" g "InstallFailed" (message e)) st))

-- The two fields that `handleFailure` writes before its test.
unfoldable pub count_failure : Release → ReleaseStatus → ReleaseStatus
unfolding increment
count_failure rel st = record st {
  last_action_failures = increment st.last_action_failures;
  observed_generation = rel.generation;
}

module _ (env : Env) (r : Reconciler) where
  -- `handleSuccess`
  unfoldable pub handle_success : String → String → Option StoredRelease → Bool → Act env Outcome
  handle_success name namespace captured refetch = do
    project_status_from_storage env r name namespace captured refetch
    update_rel (mark_success env)
    check (update_status env) (λ e. pure (failed (wrap "update success status" e)))
        (λ _. gets (λ rel. requeue_in rel.spec.interval))

  -- The last branch of `attemptRollback`.
  unfoldable pub record_rollback : Act env (Unit {0})
  record_rollback = do
    modify (set_status (λ st. record st { last_action = "rollback" }))
    rel ← gets (λ rel. rel)
    project_status_from_storage env r rel.name (release_namespace rel) none true

  -- `attemptRollback`: its errors are only logged.
  unfoldable pub attempt_rollback : Act env (Unit {0})
  unfolding record_rollback
  attempt_rollback =
      with_temp_dir env r.config.temp_dir "nelm-rollback-*" (λ e. pure tt)
        λ dir.
          check (build_rollback_options env r dir) (λ e. pure tt)
            λ options. do
              rel ← gets (λ rel. rel)
              check
                  (call rolled_back
                    (env.nelm.release_rollback rel.name (release_namespace rel) options))
                  (λ e. pure tt) (λ _. record_rollback)

  -- `handleFailure`, once the retries are exhausted.
  unfoldable pub give_up : Bool → Error → Act env Outcome
  give_up install_attempted e = do
    rel ← gets (λ rel. rel)
    if install_attempted && auto_rollback rel then attempt_rollback else pure tt
    update_rel (mark_stalled env e)
    check (update_status env) (λ e. pure (failed (wrap "update stalled status" e))) (λ _. pure done)

  -- `handleFailure`, with a retry left.
  unfoldable pub schedule_retry : Error → Act env Outcome
  unfolding retry_delay
  schedule_retry e = do
    update_rel (mark_retrying env e)
    check (update_status env) (λ e. pure (failed (wrap "update failure status" e)))
        λ _. gets λ rel. elim (retry_delay rel.status.last_action_failures) [
          | none ↦ failed (panic "negative shift amount")
          | some delay ↦ requeue_in delay
        ]

  -- `handleFailure`
  unfoldable pub handle_failure : Bool → Error → Option StoredRelease → Bool → Act env Outcome
  handle_failure install_attempted e captured refetch = do
    before ← gets (λ rel. rel)
    project_status_from_storage env r before.name (release_namespace before) captured refetch
    update_rel count_failure
    rel ← gets (λ rel. rel)
    if ltb_ℤ (max_retries rel) rel.status.last_action_failures
        then give_up install_attempted e
        else schedule_retry e
