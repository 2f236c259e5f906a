-- ===== src/Laws/Keeps.antt =====
-- Invariants of actions, one rule for each way to build an action.
use nelm_operator.Base.{
  ◌≡◌, refl, Bool, true, false, Option, none, some, Result, ok, err, Error, List, ◌∷◌,
  if◌then◌else◌,
}
use nelm_operator.Api.{Release, ReleaseStatus}
use nelm_operator.World.{
  Env, State, Act, Effect, ◌>>=◌, branch, check, pure, gets, run, call, is_ok, modify, update_rel,
  set_status,
}

-- `m` keeps `P`, however it ends.
pub record Keeps {env : Env} {A : Type 0} (P : State env → Type 0) (m : Act env A) : Type 0 where
  pub at : (s : State env) → P s → P (m s).1

-- Predicates on the record of the calls, and on the Release in memory.
pub record OnTrace {env : Env} (Q : List Effect → Type 0) (s : State env) : Type 0 where
  pub holds : Q s.trace

pub record OnRel {env : Env} (R : Release → Type 0) (s : State env) : Type 0 where
  pub holds : R s.rel

module _ {env : Env} {A : Type 0} {P : State env → Type 0} where
  pub Keeps-pure : (a : A) → Keeps P (pure {env = env} a)
  unfolding pure
  Keeps-pure a = record { at = λ s h. h }

  pub Keeps-gets : (f : Release → A) → Keeps P (gets {env = env} f)
  unfolding gets
  Keeps-gets f = record { at = λ s h. h }

  pub Keeps-if : (b : Bool) (m n : Act env A) → Keeps P m → Keeps P n → Keeps P (if b then m else n)
  Keeps-if true m n km kn = km
  Keeps-if false m n km kn = kn

module _ {env : Env} {A B : Type 0} {P : State env → Type 0} where
  pub Keeps-bind :
      (first : Act env A) (next : A → Act env B)
      → Keeps P first
      → ((a : A) → Keeps P (next a))
      → Keeps P (first >>= next)
  unfolding ◌>>=◌
  Keeps-bind first next kept then_kept = record {
    at = λ s h. (then_kept (first s).0).at (first s).1 (kept.at s h);
  }

  pub Keeps-branch :
      (fail : Error → Act env B) (rest : A → Act env B) (a : Result A)
      → ((e : Error) → Keeps P (fail e))
      → ((a : A) → Keeps P (rest a))
      → Keeps P (branch fail rest a)
  Keeps-branch fail rest (ok x) kf kr = kr x
  Keeps-branch fail rest (err e) kf kr = kf e

  pub Keeps-check :
      (m : Act env (Result A)) (fail : Error → Act env B) (rest : A → Act env B)
      → Keeps P m
      → ((e : Error) → Keeps P (fail e))
      → ((a : A) → Keeps P (rest a))
      → Keeps P (check m fail rest)
  unfolding check
  Keeps-check m fail rest km kf kr = record {
    at = λ s h. let (a, s') = m s in (Keeps-branch fail rest a kf kr).at s' (km.at s h);
  }

  pub Keeps-option :
      (o : Option A) (n : Act env B) (f : A → Act env B)
      → Keeps P n
      → ((a : A) → Keeps P (f a))
      → Keeps P (elim o [ none ↦ n | some a ↦ f a ])
  Keeps-option none n f kn kf = kn
  Keeps-option (some a) n f kn kf = kf a

module _ {env : Env} {A : Type 0} {Q : List Effect → Type 0} where
  pub Keeps-run :
      (effect : A → Effect) (f : env.World → A × env.World)
      → ((a : A) (t : List Effect) → Q t → Q (effect a ∷ t))
      → Keeps (OnTrace Q) (run {env = env} effect f)
  unfolding run
  Keeps-run effect f keeps = record { at = λ s h. record { holds = keeps _ _ h.holds } }

pub Keeps-modify :
    {env : Env} {Q : List Effect → Type 0} (f : Release → Release)
    → Keeps (OnTrace Q) (modify {env = env} f)
unfolding modify
Keeps-modify f = record { at = λ s h. record { holds = h.holds } }

pub Keeps-update_rel :
    {env : Env} {Q : List Effect → Type 0} (f : Release → ReleaseStatus → ReleaseStatus)
    → Keeps (OnTrace Q) (update_rel {env = env} f)
unfolding update_rel
Keeps-update_rel f = record { at = λ s h. record { holds = h.holds } }

module _ {env : Env} {R : Release → Type 0} where
  pub Keeps-run_rel :
      {A : Type 0} (effect : A → Effect) (f : env.World → A × env.World)
      → Keeps (OnRel R) (run {env = env} effect f)
  unfolding run
  Keeps-run_rel effect f = record { at = λ s h. record { holds = h.holds } }

  pub Keeps-modify_rel :
      (f : Release → Release)
      → ((rel : Release) → R rel → R (f rel))
      → Keeps (OnRel R) (modify {env = env} f)
  unfolding modify
  Keeps-modify_rel f keeps = record { at = λ s h. record { holds = keeps _ h.holds } }

  pub Keeps-update_rel_rel :
      (f : Release → ReleaseStatus → ReleaseStatus)
      → ((rel : Release) → R rel → R (set_status (f rel) rel))
      → Keeps (OnRel R) (update_rel {env = env} f)
  unfolding update_rel
  Keeps-update_rel_rel f keeps = record { at = λ s h. record { holds = keeps _ h.holds } }

-- For any predicate, then with those for predicates on the calls or on the Release.
pub ruleset keeps_rules = (Keeps-pure, Keeps-gets, Keeps-if, Keeps-bind, Keeps-check, Keeps-option)

pub ruleset trace_rules = (keeps_rules, Keeps-run, Keeps-modify, Keeps-update_rel)

pub ruleset rel_rules = (keeps_rules, Keeps-run_rel, Keeps-modify_rel, Keeps-update_rel_rel)

-- A call that can fail, where what follows may use how it ended.
module _ {env : Env} {A B : Type 0} (Pre Fail Ok Post : List Effect → Type 0) where
  pub call-cases :
      (effect : Bool → Effect) (f : env.World → Result A × env.World) (fail : Error → Act env B)
      (rest : A → Act env B)
      → ((t : List Effect) → Pre t → Fail (effect false ∷ t))
      → ((t : List Effect) → Pre t → Ok (effect true ∷ t))
      → ((e : Error) (s : State env) → Fail s.trace → Post (fail e s).1.trace)
      → ((a : A) (s : State env) → Ok s.trace → Post (rest a s).1.trace)
      → (s : State env) → Pre s.trace
      → Post (check (call effect f) fail rest s).1.trace
  unfolding check run
  call-cases effect f fail rest failed succeeded kf kr s h = after (f s.world)
    where
      after :
          (out : Result A × env.World)
          → Post
              (branch fail rest out.0
                (record s { world = out.1; trace = effect (is_ok out.0) ∷ s.trace })).1.trace
      after (ok a, w) = kr a _ (succeeded _ h)
      after (err e, w) = kf e _ (failed _ h)

-- The same behind any action.
module _ {env : Env} {A B : Type 0} (Pre Mid Post : List Effect → Type 0) where
  pub check-cases :
      (m : Act env (Result A)) (fail : Error → Act env B) (rest : A → Act env B)
      → ((s : State env) → Pre s.trace → Mid (m s).1.trace)
      → ((e : Error) (s : State env) → Mid s.trace → Post (fail e s).1.trace)
      → ((a : A) (s : State env) → Mid s.trace → Post (rest a s).1.trace)
      → (s : State env) → Pre s.trace
      → Post (check m fail rest s).1.trace
  unfolding check
  check-cases m fail rest km kf kr s h = after (m s).0 (m s).1 (km s h)
    where
      after : (r : Result A) (s' : State env) → Mid s'.trace → Post (branch fail rest r s').1.trace
      after (ok a) s' k = kr a s' k
      after (err e) s' k = kf e s' k

-- An action and what follows it, by the answer it gave.
module _ {env : Env} {A B : Type 0} (P : B × State env → Type 0) where
  pub check-outcomes :
      (m : Act env (Result A)) (fail : Error → Act env B) (rest : A → Act env B) (s : State env)
      → ((e : Error) (s' : State env) → m s ≡ (err e, s') → P (fail e s'))
      → ((a : A) (s' : State env) → m s ≡ (ok a, s') → P (rest a s'))
      → P (check m fail rest s)
  unfolding check
  check-outcomes m fail rest s kf kr = after (m s) refl
    where
      after : (out : Result A × State env) → m s ≡ out → P (branch fail rest out.0 out.1)
      after (ok a, s') q = kr a s' q
      after (err e, s') q = kf e s' q
