-- ===== src/Status.antt =====
-- What the operator reports in the status of a Release: `handleSuccess` and `handleFailure` of
-- internal/controller/release_controller.go.
pub mod Unchanged
pub mod Success
pub mod Failure
pub mod Waiting
pub mod Retries
use nelm_operator.Base.{
  String, ℤ, pos, Bool, true, false, Option, none, some, List, ◌∷◌, Error, Result, ok, err, ◌≡◌,
}
use nelm_operator.Api.{Release, ReleaseStatus, Condition}
use nelm_operator.World.{Env, State, Act, Effect, ◌>>=◌, check, branch, run, pure, is_ok}
use nelm_operator.Controller
use nelm_operator.Laws.Services.{find_condition, IsLawful}

-- The status of the condition of a type.
abbrev pub shown : String → ReleaseStatus → Option String
shown type st = elim (find_condition type st.conditions) [ none ↦ none | some c ↦ some c.status ]

-- The three conditions of a status.
pub record Shows (a b c : String) (st : ReleaseStatus) : Type 0 where
  pub ready : shown "Ready" st ≡ some a
  pub reconciling : shown "Reconciling" st ≡ some b
  pub stalled : shown "Stalled" st ≡ some c

-- The newest call stores a status of the kind.
pub data Stored (Q : ReleaseStatus → Type 0) : List Effect → Type 0 where
  newest :
      (st : ReleaseStatus) (b : Bool) (t : List Effect)
      → Q st
      → Stored Q (Effect.status_updated st b ∷ t)

-- What follows a status update asks for no other call.
module _ {env : Env} {Q : ReleaseStatus → Type 0} {A : Type 0} where
  pub update_status-Stored :
      (fail : Error → Act env A) (rest : Unit {0} → Act env A)
      → ((e : Error) (s : State env) → (fail e s).1.trace ≡ s.trace)
      → ((u : Unit {0}) (s : State env) → (rest u s).1.trace ≡ s.trace)
      → (s : State env) → Q s.rel.status
      → Stored Q (check (Controller.update_status env) fail rest s).1.trace
  unfolding Controller.update_status ◌>>=◌
  update_status-Stored fail rest failing resting s h = after (env.kube.update_status s.rel s.world)
    where
      after :
          (out : Result Release × env.World)
          → Stored Q
              (check
                (λ s'.
                  (branch {env = env} {A = Release} {B = Result (Unit {0})}
                    (λ e s. (err e, s))
                    (λ stored s. (ok tt, record s { rel = stored }))
                    out.0
                    (record s' {
                      world = out.1;
                      trace = Effect.status_updated s'.rel.status (is_ok out.0) ∷ s'.trace;
                    })))
                fail
                rest
                s).1.trace
      after (ok rel, w) =
          rw
            (resting tt (record s {
              rel = rel;
              world = w;
              trace = Effect.status_updated s.rel.status true ∷ s.trace;
            }))
            (newest _ _ _ h)
      after (err e, w) =
          rw
            (failing e
              (record s { world = w; trace = Effect.status_updated s.rel.status false ∷ s.trace }))
            (newest _ _ _ h)
