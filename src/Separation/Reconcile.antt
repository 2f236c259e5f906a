-- ===== src/Separation/Reconcile.antt =====
-- What the deletion mark of a Release decides: `Reconcile` of
-- internal/controller/release_controller.go.
use nelm_operator.Base.{String, ◌≡◌, refl, true, false, not, [], ok, if◌then◌else◌}
use nelm_operator.Api.{Release}
use nelm_operator.World.{Env, State, ◌>>=◌, pure, release_read}
use nelm_operator.Controller
use nelm_operator.Controller.{Reconciler, has_finalizer, add_finalizer}
use nelm_operator.Laws.Keeps.{Keeps, OnTrace, trace_rules}
use nelm_operator.Laws.Services.{IsLawful}
use nelm_operator.Laws.Quiet.{Quiet}
use nelm_operator.Separation.{
  Lacks, nothing, another, is_deployment, is_uninstall, Quiet-deployment, Quiet-uninstall,
  Scoped-deployment, Scoped-uninstall,
}
use nelm_operator.Separation.Install.{reconcile_chart-Keeps_any}
use nelm_operator.Separation.Delete.{patch-Keeps_any, reconcile_delete-Keeps_any}

module _ (env : Env) (r : Reconciler) (laws : IsLawful env) where
  delete-Lacks : Keeps (OnTrace (Lacks is_deployment)) (Controller.reconcile_delete env r)
  delete-Lacks =
      reconcile_delete-Keeps_any env r laws Quiet-deployment Quiet-deployment
        (Scoped-deployment env) (λ names b t h. another _ t refl h) (λ b t h. another _ t refl h)

  chart-Lacks :
      Quiet (Lacks is_uninstall)
      → Keeps (OnTrace (Lacks is_uninstall)) (Controller.reconcile_chart env r)
  chart-Lacks quiet =
      reconcile_chart-Keeps_any env r quiet quiet (Scoped-uninstall env)
        (λ o t h. another _ t refl h) (λ b t h. another _ t refl h) (λ b t h. another _ t refl h)
        quiet (Scoped-uninstall env) laws

  add-Lacks :
      Quiet (Lacks is_uninstall)
      → Keeps (OnTrace (Lacks is_uninstall)) (Controller.patch_finalizers env r add_finalizer)
  add-Lacks quiet = patch-Keeps_any env r (λ names b t h. another _ t refl h) add_finalizer

  ensure-Lacks :
      Quiet (Lacks is_uninstall)
      → Keeps (OnTrace (Lacks is_uninstall)) (Controller.ensure_finalizer env r)
  unfolding Controller.ensure_finalizer
  ensure-Lacks quiet = search (trace_rules, add-Lacks)

  -- A Release that is not being deleted.
  live-Lacks :
      (rel : Release)
      → Keeps (OnTrace (Lacks is_uninstall)) (
          if rel.spec.suspend
          then pure {env = env} Controller.done
          else (if not (has_finalizer rel)
              then Controller.ensure_finalizer env r
              else Controller.reconcile_chart env r))
  live-Lacks rel = search (trace_rules, Quiet-uninstall, ensure-Lacks, chart-Lacks)

-- When the Release that is read is being deleted, with a client as documented and in any world,
-- the call plans no install, installs nothing and rolls nothing back.
pub reconcile-Lacks_deployment :
    (env : Env) (r : Reconciler)
    → IsLawful env
    → (namespace name : String) (s : State env) (rel : Release) (w : env.World)
    → env.kube.get_release namespace name s.world ≡ (ok rel, w)
    → rel.is_deleting ≡ true
    → s.trace ≡ []
    → Lacks is_deployment (Controller.reconcile env r namespace name s).1.trace
unfolding Controller.reconcile Controller.reconcile_release ◌>>=◌
reconcile-Lacks_deployment env r laws namespace name s rel w found deleting start =
    rw (found, deleting)
      ((delete-Lacks env r laws).at _
        (record { holds = rw start (another (release_read true) [] refl nothing) })).holds

-- When the Release that is read is not being deleted, with a client as documented and in any
-- world, the call uninstalls nothing, whether or not the Release is suspended.
pub reconcile-Lacks_uninstall :
    (env : Env) (r : Reconciler)
    → IsLawful env
    → (namespace name : String) (s : State env) (rel : Release) (w : env.World)
    → env.kube.get_release namespace name s.world ≡ (ok rel, w)
    → rel.is_deleting ≡ false
    → s.trace ≡ []
    → Lacks is_uninstall (Controller.reconcile env r namespace name s).1.trace
unfolding Controller.reconcile Controller.reconcile_release ◌>>=◌ Controller.reconcile_delete
reconcile-Lacks_uninstall env r laws namespace name s rel w found live start =
    rw (found, live)
      ((live-Lacks env r laws rel).at _
        (record { holds = rw start (another (release_read true) [] refl nothing) })).holds
