-- ===== src/Laws/Services.antt =====
-- Documented behaviour of the code outside the repository, as hypotheses.
use nelm_operator.Base.{
  String, ◌≡◌, subst, true, Option, none, some, List, [], ◌∷◌, str_eq, if◌then◌else◌, Error,
  is_conflict, Result, err,
}
use nelm_operator.Api.{Condition}
use nelm_operator.World.{Env, State, Act}
use nelm_operator.Laws.Keeps.{Keeps}

-- `meta.FindStatusCondition`
unfoldable pub find_condition : String → List Condition → Option Condition
find_condition type [] = none
find_condition type (c ∷ conditions) =
    if str_eq c.type type then some c else find_condition type conditions

-- Runs of a function, each but the last after a conflict.
pub data Retried {S : Type 0} (f : S → Result (Unit {0}) × S)
    : S → Result (Unit {0}) × S → Type 0 where
  once : (s : S) → Retried f s (f s)
  again :
      (s : S) (e : Error) (s' : S) {out : Result (Unit {0}) × S}
      → f s ≡ (err e, s')
      → is_conflict e ≡ true
      → Retried f s' out
      → Retried f s out

-- `SetStatusCondition` replaces the condition of its type and leaves the others, and
-- `RetryOnConflict` runs its function again only after a conflict.
pub record IsLawful (env : Env) : Type 1 where
  pub set_condition :
      (c : Condition) (conditions : List Condition) (type : String)
      → find_condition type (env.kube.set_status_condition c conditions)
        ≡ (if str_eq c.type type then some c else find_condition type conditions)
  pub retried :
      (S : Type 0) (f : S → Result (Unit {0}) × S) (s : S)
      → Retried f s (env.kube.retry_on_conflict S f s)

-- What one run keeps, the runs keep.
pub Retried-keeps :
    {S : Type 0} (f : S → Result (Unit {0}) × S) (P : S → Type 0)
    → ((s : S) → P s → P (f s).1)
    → (s : S) {out : Result (Unit {0}) × S} → Retried f s out
    → P s
    → P out.1
Retried-keeps f P keeps s (once _) h = keeps s h
Retried-keeps f P keeps s (again _ e s' q c more) h =
    Retried-keeps f P keeps s' more (subst (λ p. P p.1) q (keeps s h))

-- An action that is retried keeps what one attempt of it keeps.
pub Keeps-retry :
    {env : Env}
    → IsLawful env
    → {P : State env → Type 0} (m : Act env (Result (Unit {0}))) → Keeps P m
    → Keeps P (env.kube.retry_on_conflict (State env) m)
Keeps-retry {env} laws {P} m keeps = record {
  at = λ s h. Retried-keeps m P keeps.at s (laws.retried (State env) m s) h;
}
