-- ===== src/Order.antt =====
-- In which order a reconcile call asks for things: internal/controller/release_controller.go.
pub mod Install
pub mod Delete
pub mod Reconcile
use nelm_operator.Base.{String, ◌≡◌, refl, ◌⊎◌, Bool, true, false, List, [], ◌∷◌, Error}
use nelm_operator.Api.Constants.{release_finalizer_name}
use nelm_operator.World.{Env, State, Act, Effect, PlanOutcome, check, pure}
use nelm_operator.Controller.{contains, with_temp_dir}
use nelm_operator.Laws.Keeps.{
  Keeps, OnTrace, Keeps-bind, Keeps-check, Keeps-pure, Keeps-run, trace_rules,
}
use nelm_operator.Laws.Quiet.{Quiet, is_marked}
use nelm_operator.Laws.Quiet.Rollback.{Scoped}

-- A call of the kind is on record.
pub data Occurs (p : Effect → Bool) : List Effect → Type 0 where
  here : (e : Effect) (t : List Effect) → p e ≡ true → Occurs p (e ∷ t)
  there : (e : Effect) (t : List Effect) → Occurs p t → Occurs p (e ∷ t)

abbrev pub found_changes : Effect → Bool
found_changes (Effect.install_planned PlanOutcome.changes) = true
found_changes _ = false

abbrev pub failed_install : Effect → Bool
failed_install (Effect.installed false) = true
failed_install _ = false

abbrev pub done_uninstall : Effect → Bool
done_uninstall (Effect.uninstalled true) = true
done_uninstall _ = false

-- The newest call stands first. An install follows a plan that found changes, a rollback a failed
-- install, and finalizers without the operator's own a successful uninstall.
pub data IsOrdered : List Effect → Type 0 where
  empty : IsOrdered []
  quiet : (e : Effect) (t : List Effect) → is_marked e ≡ false → IsOrdered t → IsOrdered (e ∷ t)
  dir_made : (b : Bool) (t : List Effect) → IsOrdered t → IsOrdered (Effect.temp_dir_made b ∷ t)
  dir_removed :
      (dir : String) (t : List Effect) → IsOrdered t → IsOrdered (Effect.temp_dir_removed dir ∷ t)
  planned :
      (o : PlanOutcome) (t : List Effect) → IsOrdered t → IsOrdered (Effect.install_planned o ∷ t)
  installed :
      (b : Bool) (t : List Effect)
      → Occurs found_changes t
      → IsOrdered t
      → IsOrdered (Effect.installed b ∷ t)
  rolled_back :
      (b : Bool) (t : List Effect)
      → Occurs failed_install t
      → IsOrdered t
      → IsOrdered (Effect.rolled_back b ∷ t)
  uninstalled : (b : Bool) (t : List Effect) → IsOrdered t → IsOrdered (Effect.uninstalled b ∷ t)
  patched :
      (names : List String) (b : Bool) (t : List Effect)
      → (contains release_finalizer_name names ≡ true) ⊎ Occurs done_uninstall t
      → IsOrdered t
      → IsOrdered (Effect.finalizers_patched names b ∷ t)

-- Ordered calls, one of them of the kind.
pub data With (p : Effect → Bool) (t : List Effect) : Type 0 where
  both : Occurs p t → IsOrdered t → With p t

pub With-IsOrdered : {p : Effect → Bool} {t : List Effect} → With p t → IsOrdered t
With-IsOrdered (both o h) = h

pub Quiet-IsOrdered : Quiet IsOrdered
Quiet-IsOrdered = record { cons = quiet }

pub Quiet-With : (p : Effect → Bool) → Quiet (With p)
Quiet-With p = record { cons = cons }
  where
    cons : (e : Effect) (t : List Effect) → is_marked e ≡ false → With p t → With p (e ∷ t)
    cons e t q (both o h) = both (there e t o) (quiet e t q h)

-- A directory around ordered calls.
module _ {env : Env} {Q : List Effect → Type 0}
    (made : (b : Bool) (t : List Effect) → Q t → Q (Effect.temp_dir_made b ∷ t))
    (removed : (dir : String) (t : List Effect) → Q t → Q (Effect.temp_dir_removed dir ∷ t)) where
  pub Scoped-any : Scoped env Q Q
  unfolding with_temp_dir
  Scoped-any = record {
    around = λ A parent pattern fail rest kf kr.
        Keeps-check _ _ _ (Keeps-run _ _ (λ a t h. made _ t h)) kf λ dir.
          Keeps-bind _ _ (kr dir)
            λ a. Keeps-bind _ _ (Keeps-run _ _ (λ u t h. removed dir t h)) (λ u. Keeps-pure a);
  }

pub Scoped-IsOrdered : (env : Env) → Scoped env IsOrdered IsOrdered
Scoped-IsOrdered env = Scoped-any dir_made dir_removed

pub Scoped-With : (env : Env) (p : Effect → Bool) → Scoped env (With p) (With p)
Scoped-With env p = Scoped-any made removed
  where
    made : (b : Bool) (t : List Effect) → With p t → With p (Effect.temp_dir_made b ∷ t)
    made b t (both o h) = both (there _ t o) (dir_made b t h)

    removed : (dir : String) (t : List Effect) → With p t → With p (Effect.temp_dir_removed dir ∷ t)
    removed dir t (both o h) = both (there _ t o) (dir_removed dir t h)
