-- ===== src/Order/Reconcile.antt =====
-- The order of the calls of one reconcile call, whichever way it goes.
use nelm_operator.Base.{String, ◌≡◌, [], inl}
use nelm_operator.World.{Env, State}
use nelm_operator.Controller
use nelm_operator.Controller.{Reconciler, add_finalizer}
use nelm_operator.Laws.Keeps.{Keeps, OnTrace, trace_rules}
use nelm_operator.Laws.Services.{IsLawful}
use nelm_operator.Laws.Quiet.{Quiet}
use nelm_operator.Laws.Quiet.Deploy.{reconcile_chart-Keeps}
use nelm_operator.Laws.Quiet.Rollback.{Scoped}
use nelm_operator.Order.{IsOrdered, quiet, Quiet-IsOrdered, Scoped-IsOrdered}
use nelm_operator.Order.Install.{reconcile_install-Keeps}
use nelm_operator.Order.Delete.{
  patch_finalizers-Keeps, add_finalizer-contains, reconcile_delete-Keeps,
}

module _ (env : Env) (r : Reconciler) (laws : IsLawful env) where
  added-Keeps :
      Quiet IsOrdered → Keeps (OnTrace IsOrdered) (Controller.patch_finalizers env r add_finalizer)
  added-Keeps keeps =
      patch_finalizers-Keeps env r add_finalizer
        (λ rel b t h. IsOrdered.patched _ b t (inl (add_finalizer-contains rel)) h)

  ensure_finalizer-Keeps :
      Scoped env IsOrdered IsOrdered → Keeps (OnTrace IsOrdered) (Controller.ensure_finalizer env r)
  unfolding Controller.ensure_finalizer
  ensure_finalizer-Keeps scoped = search (trace_rules, Quiet-IsOrdered, added-Keeps)

  chart-Keeps :
      Scoped env IsOrdered IsOrdered → Keeps (OnTrace IsOrdered) (Controller.reconcile_chart env r)
  chart-Keeps scoped =
      reconcile_chart-Keeps env r Quiet-IsOrdered Quiet-IsOrdered scoped
        (reconcile_install-Keeps env r) laws

  delete-Keeps :
      Scoped env IsOrdered IsOrdered → Keeps (OnTrace IsOrdered) (Controller.reconcile_delete env r)
  delete-Keeps scoped = reconcile_delete-Keeps env r laws

  release-Keeps :
      Scoped env IsOrdered IsOrdered
      → Keeps (OnTrace IsOrdered) (Controller.reconcile_release env r)
  unfolding Controller.reconcile_release
  release-Keeps scoped =
      search (trace_rules, delete-Keeps, ensure_finalizer-Keeps, chart-Keeps) depth 12

  reconcile-Keeps :
      Scoped env IsOrdered IsOrdered
      → (namespace name : String)
      → Keeps (OnTrace IsOrdered) (Controller.reconcile env r namespace name)
  unfolding Controller.reconcile
  reconcile-Keeps scoped namespace name = search (trace_rules, quiet, release-Keeps) depth 12

-- From the start of a call of `Reconcile`, with a client whose conditions and retries behave as
-- documented, in any world: an install is asked for only behind a plan that found changes, a
-- rollback only behind a failed install, and the finalizers are written without the operator's own
-- only behind a successful uninstall.
pub reconcile-IsOrdered :
    (env : Env) (r : Reconciler)
    → IsLawful env
    → (namespace name : String) (s : State env) → s.trace ≡ []
    → IsOrdered (Controller.reconcile env r namespace name s).1.trace
reconcile-IsOrdered env r laws namespace name s start =
    ((reconcile-Keeps env r laws (Scoped-IsOrdered env) namespace name).at s
      (record { holds = rw start IsOrdered.empty })).holds
