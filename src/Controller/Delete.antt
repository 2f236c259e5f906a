-- ===== src/Controller/Delete.antt =====
-- `reconcileDelete`: uninstall, release the chart source, and let the resource go.
use nelm_operator.Base.{
  String, Bool, List, [], ◌∷◌, ◌++◌, is_some, str_eq, if◌then◌else◌, wrap, Result, ok, err,
}
use nelm_operator.Api.{Release, ReleaseStatus, release_namespace}
use nelm_operator.Api.Constants.{release_finalizer_name}
use nelm_operator.World.{
  Env, Act, ◌>>=◌, ◌>>◌, check, pure, gets, call, update_rel, modify, set_status, uninstalled,
  finalizers_patched,
}
use nelm_operator.Controller.Returns.{Reconciler, Outcome, done, failed}
use nelm_operator.Controller.Storage.{update_status, set_condition}
use nelm_operator.Controller.Options.{build_uninstall_options}
use nelm_operator.Controller.Outcomes.{condition, with_temp_dir}
use nelm_operator.Controller.SourceRefs.{contains, cleanup_chart_source_ref}

-- `controllerutil.ContainsFinalizer`, `AddFinalizer` and `RemoveFinalizer`.
unfoldable pub has_finalizer : Release → Bool
unfolding contains
has_finalizer rel = contains release_finalizer_name rel.finalizers

unfoldable pub without : String → List String → List String
without n [] = []
without n (m ∷ names) = let rest = without n names in if str_eq m n then rest else m ∷ rest

abbrev pub add_finalizer : Release → Release
add_finalizer rel =
    if has_finalizer rel
    then rel
    else record rel { finalizers = rel.finalizers ++ (release_finalizer_name ∷ []) }

abbrev pub remove_finalizer : Release → Release
remove_finalizer rel = record rel { finalizers = without release_finalizer_name rel.finalizers }

module _ (env : Env) (r : Reconciler) where
  -- `r.Patch(ctx, rel, client.MergeFrom(rel.DeepCopy()))` around a change of the finalizers.
  unfoldable pub patch_finalizers : (Release → Release) → Act env (Result (Unit {0}))
  patch_finalizers f = do
    base ← gets (λ rel. rel)
    modify f
    changed ← gets (λ rel. rel)
    check (call (finalizers_patched changed.finalizers) (env.kube.patch_release base changed))
        (λ e. pure (err e)) λ stored. do modify (λ _. stored); pure (ok tt)

  abbrev or_fail :
      {A : Type 0} → String → Act env (Result A) → (A → Act env Outcome) → Act env Outcome
  or_fail context m rest = check m (λ e. pure (failed (wrap context e))) rest

  -- The first status that the deletion stores.
  unfoldable pub mark_uninstalling : Release → ReleaseStatus → ReleaseStatus
  unfolding set_condition
  mark_uninstalling rel st =
      let marked : ReleaseStatus =
        set_condition env
          (condition "Reconciling" "True" rel.generation "Uninstalling" "Uninstalling release")
          st in
      record marked { observed_generation = rel.generation }

  -- The chart source that was applied last, if there is one.
  unfoldable pub release_source : Act env (Result (Unit {0}))
  release_source = do
    st ← gets (λ rel. rel.status)
    if is_some st.last_applied_chart_source
        then cleanup_chart_source_ref env r st.last_applied_chart_source
        else pure (ok tt)

  -- What follows a successful uninstall.
  unfoldable pub finish_delete : Act env Outcome
  unfolding release_source patch_finalizers
  finish_delete = do
    modify (set_status (λ st. record st { last_action = "uninstall" }))
    or_fail "update uninstall status" (update_status env) λ _.
        or_fail "delete inline source ref on delete reconcile" release_source
          λ _. or_fail "remove finalizer" (patch_finalizers remove_finalizer) (λ _. pure done)

  -- What is done in the temporary directory.
  unfoldable pub uninstall_in : String → Act env Outcome
  unfolding finish_delete
  uninstall_in dir =
      or_fail "build uninstall options" (build_uninstall_options env r dir) λ options. do
        rel ← gets (λ rel. rel)
        or_fail "uninstall release"
            (call uninstalled (env.nelm.release_uninstall rel.name (release_namespace rel) options))
            (λ _. finish_delete)

  -- `reconcileDelete`
  unfoldable pub reconcile_delete : Act env Outcome
  unfolding has_finalizer mark_uninstalling uninstall_in
  reconcile_delete = do
    rel ← gets (λ rel. rel)
    if has_finalizer rel
        then (do
          update_rel mark_uninstalling
          or_fail "update uninstalling status" (update_status env) λ _.
              with_temp_dir env r.config.temp_dir "nelm-uninstall-*"
                (λ e. pure (failed (wrap "create temp dir" e))) uninstall_in)
        else pure done
