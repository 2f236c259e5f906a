-- ===== src/Order/Delete.antt =====
-- The operator's finalizer goes behind a successful uninstall.
use nelm_operator.Base.{
  String, ◌≡◌, refl, inl, inr, Bool, true, false, Option, List, ◌∷◌, ok, err, wrap, eq_refl, arith,
  Bool-cases,
}
use nelm_operator.Api.{Release, ChartSourceReference, release_namespace}
use nelm_operator.Options.{UninstallOptions}
use nelm_operator.Api.Constants.{release_finalizer_name}
use nelm_operator.World.{Env, Effect, ◌>>=◌, pure, modify, check, call, is_ok}
use nelm_operator.Membership.{contains-append_one}
use nelm_operator.Controller
use nelm_operator.Controller.{
  failed, Reconciler, contains, has_finalizer, add_finalizer, remove_finalizer,
}
use nelm_operator.Laws.Keeps.{
  Keeps, OnTrace, trace_rules, Keeps-branch, Keeps-modify, Keeps-bind, Keeps-pure, call-cases,
}
use nelm_operator.Laws.Services.{IsLawful}
use nelm_operator.Laws.Quiet.{Quiet, update_status-Keeps}
use nelm_operator.Laws.Quiet.SourceRefs.{cleanup-Keeps}
use nelm_operator.Laws.Quiet.Inputs.{build_uninstall_options-Keeps}
use nelm_operator.Order.{
  here, there, done_uninstall, IsOrdered, With, both, With-IsOrdered, Quiet-IsOrdered, Quiet-With,
  Scoped-IsOrdered,
}

-- The finalizers that a patch sends are those of the changed Release.
pub patch_finalizers-Keeps :
    (env : Env) (r : Reconciler) {Q : List Effect → Type 0} (f : Release → Release)
    → ((rel : Release) (b : Bool) (t : List Effect)
        → Q t
        → Q (Effect.finalizers_patched (f rel).finalizers b ∷ t))
    → Keeps (OnTrace Q) (Controller.patch_finalizers env r f)
unfolding Controller.patch_finalizers ◌>>=◌
patch_finalizers-Keeps env r {Q} f step = record {
  at = λ s h.
      (Keeps-branch {P = OnTrace Q} (λ e. pure (err e))
          (λ stored. modify (λ _. stored) >>= λ _. pure (ok tt))
          (env.kube.patch_release s.rel (f s.rel) s.world).0 (λ e. Keeps-pure _)
          (λ stored. Keeps-bind _ _ (Keeps-modify _) (λ _. Keeps-pure (ok tt)))).at
        (record s {
          rel = f s.rel;
          world = (env.kube.patch_release s.rel (f s.rel) s.world).1;
          trace =
              Effect.finalizers_patched (f s.rel).finalizers
                (is_ok (env.kube.patch_release s.rel (f s.rel) s.world).0)
              ∷ s.trace;
        })
        (record { holds = step s.rel _ s.trace h.holds });
}

pub add_finalizer-contains :
    (rel : Release) → contains release_finalizer_name (add_finalizer rel).finalizers ≡ true
unfolding has_finalizer
add_finalizer-contains rel = elim (Bool-cases (contains release_finalizer_name rel.finalizers)) [
  | inl held ↦ rw held held
  | inr missing ↦ ground (
    arith,
    missing,
    contains-append_one release_finalizer_name release_finalizer_name rel.finalizers,
    eq_refl release_finalizer_name,
  )
]

patched_behind :
    (names : List String) (b : Bool) (t : List Effect)
    → With done_uninstall t
    → With done_uninstall (Effect.finalizers_patched names b ∷ t)
patched_behind names b t (both o h) = both (there _ t o) (IsOrdered.patched names b t (inr o) h)

uninstall_done : (t : List Effect) → IsOrdered t → With done_uninstall (Effect.uninstalled true ∷ t)
uninstall_done t h = both (here _ t refl) (IsOrdered.uninstalled true t h)

module _ (env : Env) (r : Reconciler) (laws : IsLawful env) where
  release_source-Keeps :
      {Q : List Effect → Type 0} → Quiet Q → Keeps (OnTrace Q) (Controller.release_source env r)
  unfolding Controller.release_source
  release_source-Keeps quiet =
      search
        (trace_rules, λ (ref : Option ChartSourceReference). cleanup-Keeps env r quiet laws ref)

  remove-Keeps :
      Quiet (With done_uninstall)
      → Keeps (OnTrace (With done_uninstall)) (Controller.patch_finalizers env r remove_finalizer)
  remove-Keeps quiet = patch_finalizers-Keeps env r remove_finalizer (λ rel. patched_behind _)

  finish_delete-Keeps :
      Quiet (With done_uninstall)
      → Keeps (OnTrace (With done_uninstall)) (Controller.finish_delete env r)
  unfolding Controller.finish_delete
  finish_delete-Keeps quiet =
      search (trace_rules, update_status-Keeps env r, release_source-Keeps, remove-Keeps) depth 14

  -- Whatever the uninstall answers, the order is kept.
  answered-Keeps :
      (rel : Release) (options : UninstallOptions)
      → Keeps (OnTrace IsOrdered) (
          check
            (call Effect.uninstalled
              (env.nelm.release_uninstall rel.name (release_namespace rel) options))
            (λ e. pure (failed (wrap "uninstall release" e)))
            (λ _. Controller.finish_delete env r))
  answered-Keeps rel options = record {
    at = λ s h. record {
      holds =
          call-cases IsOrdered IsOrdered (With done_uninstall) IsOrdered Effect.uninstalled
            (env.nelm.release_uninstall rel.name (release_namespace rel) options)
            (λ e. pure (failed (wrap "uninstall release" e))) (λ _. Controller.finish_delete env r)
            (λ t h. IsOrdered.uninstalled false t h) uninstall_done
            (λ e s h.
              ((Keeps-pure {P = OnTrace IsOrdered} (failed (wrap "uninstall release" e))).at s
                (record { holds = h })).holds)
            (λ a s h.
              With-IsOrdered
                ((finish_delete-Keeps (Quiet-With done_uninstall)).at s
                  (record { holds = h })).holds)
            s h.holds;
    };
  }

  uninstall-Keeps : (dir : String) → Keeps (OnTrace IsOrdered) (Controller.uninstall_in env r dir)
  unfolding Controller.uninstall_in
  uninstall-Keeps dir =
      search (trace_rules, Quiet-IsOrdered, build_uninstall_options-Keeps env r, answered-Keeps)
        depth 12

  pub reconcile_delete-Keeps : Keeps (OnTrace IsOrdered) (Controller.reconcile_delete env r)
  unfolding Controller.reconcile_delete
  reconcile_delete-Keeps =
      search
        (
          trace_rules,
          Quiet-IsOrdered,
          update_status-Keeps env r,
          (Scoped-IsOrdered env).around,
          uninstall-Keeps,
        )
        depth 14
