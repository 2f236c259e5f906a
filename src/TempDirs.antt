-- ===== src/TempDirs.antt =====
-- The temporary directories of `Reconcile`, `reconcileDelete` and `attemptRollback`, which
-- internal/controller/release_controller.go removes by `defer`.
use nelm_operator.Base.{
  ℕ, suc, ◌+◌, String, ◌≡◌, refl, Bool, true, false, List, [], ◌∷◌, arith, if◌then◌else◌,
}
use nelm_operator.World.{
  Env, State, Act, Effect, ◌>>=◌, ◌>>◌, pure, leave, temp_dir_made, temp_dir_removed,
}
use nelm_operator.Controller
use nelm_operator.Controller.{Reconciler, with_temp_dir, has_finalizer, add_finalizer}
use nelm_operator.Laws.Keeps.{Keeps, OnTrace, trace_rules, call-cases}
use nelm_operator.Laws.Services.{IsLawful}
use nelm_operator.Laws.Quiet.{Quiet, is_marked}
use nelm_operator.Laws.Quiet.Rollback.{Scoped}
use nelm_operator.Separation.Install.{reconcile_chart-Keeps_any}
use nelm_operator.Separation.Delete.{patch-Keeps_any, reconcile_delete-Keeps_any}

abbrev pub is_making : Effect → Bool
is_making (Effect.temp_dir_made succeeded) = succeeded
is_making _ = false

abbrev pub is_removal : Effect → Bool
is_removal (Effect.temp_dir_removed dir) = true
is_removal _ = false

-- How many calls on record are of a kind.
unfoldable pub count : (Effect → Bool) → List Effect → ℕ
count p [] = 0
count p (e ∷ t) = let rest = count p t in if p e then suc rest else rest

-- So many directories are there.
abbrev Open : ℕ → List Effect → Type 0
Open n t = count is_making t ≡ n + count is_removal t

unmarked-making : (e : Effect) → is_marked e ≡ false → is_making e ≡ false
unmarked-making e q = ground arith

unmarked-removal : (e : Effect) → is_marked e ≡ false → is_removal e ≡ false
unmarked-removal e q = ground arith

-- A call that is neither leaves them.
other-Open :
    (n : ℕ) (e : Effect) (t : List Effect)
    → is_making e ≡ false
    → is_removal e ≡ false
    → Open n t
    → Open n (e ∷ t)
unfolding count
other-Open n e t p q h = rw (p, q) h

Quiet-Open : (n : ℕ) → Quiet (Open n)
Quiet-Open n = record {
  cons = λ e t q h. other-Open n e t (unmarked-making e q) (unmarked-removal e q) h;
}

-- The deferred removal.
closing :
    {A : Type 0} (env : Env) (n : ℕ) (rest : String → Act env A) (dir : String) (s : State env)
    → Open (suc n) (rest dir s).1.trace
    → Open n
        ((do a ← rest dir; leave (temp_dir_removed dir) (env.host.remove_all dir); pure a)
          s).1.trace
unfolding ◌>>=◌ count
closing env n rest dir s k = omega arith

-- A directory is there between its making and its removal.
Scoped-Open : (env : Env) (n : ℕ) → Scoped env (Open n) (Open (suc n))
unfolding with_temp_dir count
Scoped-Open env n = record {
  around = λ A parent pattern fail rest kf kr. record {
    at = λ s h. record {
      holds =
          call-cases (Open n) (Open n) (Open (suc n)) (Open n) temp_dir_made
            (env.host.make_temp_dir parent pattern) fail _ (λ t k. k) (λ t k. omega arith)
            (λ e s k. ((kf e).at s (record { holds = k })).holds)
            (λ dir s k. closing env n rest dir s (((kr dir).at s (record { holds = k })).holds)) s
            h.holds;
    };
  };
}

module _ (env : Env) (r : Reconciler) (laws : IsLawful env) where
  chart-Open : Keeps (OnTrace (Open 0)) (Controller.reconcile_chart env r)
  chart-Open =
      reconcile_chart-Keeps_any env r (Quiet-Open 1) (Quiet-Open 2) (Scoped-Open env 1)
        (λ o t h. other-Open 1 _ t refl refl h) (λ b t h. other-Open 1 _ t refl refl h)
        (λ b t h. other-Open 2 _ t refl refl h) (Quiet-Open 0) (Scoped-Open env 0) laws

  delete-Open : Keeps (OnTrace (Open 0)) (Controller.reconcile_delete env r)
  delete-Open =
      reconcile_delete-Keeps_any env r laws (Quiet-Open 0) (Quiet-Open 1) (Scoped-Open env 0)
        (λ names b t h. other-Open 1 _ t refl refl h) (λ b t h. other-Open 1 _ t refl refl h)

  ensure-Open : Unit {0} → Keeps (OnTrace (Open 0)) (Controller.ensure_finalizer env r)
  unfolding Controller.ensure_finalizer
  ensure-Open u = search (
    trace_rules,
    λ (v : Unit {0}).
        patch-Keeps_any env r {Q = Open 0} (λ names b t h. other-Open 0 _ t refl refl h)
          add_finalizer,
  )

  release-Open : (u : Unit {0}) → Keeps (OnTrace (Open 0)) (Controller.reconcile_release env r)
  unfolding Controller.reconcile_release
  release-Open u =
      search (trace_rules, λ (v : Unit {0}). delete-Open, λ (v : Unit {0}). chart-Open, ensure-Open)
        depth 12

  reconcile-Open :
      (namespace name : String)
      → Keeps (OnTrace (Open 0)) (Controller.reconcile env r namespace name)
  unfolding Controller.reconcile
  reconcile-Open namespace name = search (trace_rules, release-Open, (Quiet-Open 0).cons) depth 12

-- With a client that retries as documented and in any world, a call of `reconcile` removes as many
-- temporary directories as it has made, on every path.
pub reconcile-removes :
    (env : Env) (r : Reconciler)
    → IsLawful env
    → (namespace name : String) (s : State env) → s.trace ≡ []
    → count is_making (Controller.reconcile env r namespace name s).1.trace
      ≡ count is_removal (Controller.reconcile env r namespace name s).1.trace
unfolding count
reconcile-removes env r laws namespace name s start =
    let closed : Open 0 (Controller.reconcile env r namespace name s).1.trace =
      ((reconcile-Open env r laws namespace name).at s (record { holds = rw start refl })).holds in
    omega arith
