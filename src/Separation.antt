-- ===== src/Separation.antt =====
-- A Release that is being deleted is not deployed, and any other is not uninstalled:
-- internal/controller/release_controller.go.
pub mod Install
pub mod Delete
pub mod Reconcile
use nelm_operator.Base.{
  String, ◌≡◌, refl, Bool, true, false, List, [], ◌∷◌, Error, Result, ok, err, arith,
}
use nelm_operator.World.{Env, Effect}
use nelm_operator.Laws.Quiet.{Quiet, is_marked}
use nelm_operator.Laws.Quiet.Rollback.{Scoped}
use nelm_operator.Order.{Scoped-any}

abbrev pub is_deployment : Effect → Bool
is_deployment (Effect.install_planned outcome) = true
is_deployment (Effect.installed b) = true
is_deployment (Effect.rolled_back b) = true
is_deployment _ = false

abbrev pub is_uninstall : Effect → Bool
is_uninstall (Effect.uninstalled b) = true
is_uninstall _ = false

-- No call of the kind is on record.
pub data Lacks (p : Effect → Bool) : List Effect → Type 0 where
  nothing : Lacks p []
  another : (e : Effect) (t : List Effect) → p e ≡ false → Lacks p t → Lacks p (e ∷ t)

unmarked-deployment : (e : Effect) → is_marked e ≡ false → is_deployment e ≡ false
unmarked-deployment e q = ground arith

unmarked-uninstall : (e : Effect) → is_marked e ≡ false → is_uninstall e ≡ false
unmarked-uninstall e q = ground arith

-- Unmarked calls are of neither kind.
pub Quiet-deployment : Quiet (Lacks is_deployment)
Quiet-deployment = record { cons = λ e t q h. another e t (unmarked-deployment e q) h }

pub Quiet-uninstall : Quiet (Lacks is_uninstall)
Quiet-uninstall = record { cons = λ e t q h. another e t (unmarked-uninstall e q) h }

pub Scoped-deployment : (env : Env) → Scoped env (Lacks is_deployment) (Lacks is_deployment)
Scoped-deployment env = Scoped-any (λ b t h. another _ t refl h) (λ dir t h. another _ t refl h)

pub Scoped-uninstall : (env : Env) → Scoped env (Lacks is_uninstall) (Lacks is_uninstall)
Scoped-uninstall env = Scoped-any (λ b t h. another _ t refl h) (λ dir t h. another _ t refl h)
