-- ===== src/World/Actions.antt =====
-- Actions. The controller's methods share the Release that they point to, so an action carries it
-- beside the state of the world and the record of the calls.
use nelm_operator.Base.{String, Bool, List, ◌∷◌, Error, wrap, Result, ok, err}
use nelm_operator.Api.{Release, ReleaseStatus}
use nelm_operator.World.Effects.{Effect, is_ok}
use nelm_operator.World.Services.{Env}

pub record State (env : Env) : Type 0 where
  pub rel : Release
  pub world : env.World
  pub trace : List Effect

abbrev pub Act : Env → Type 0 → Type 0
Act env A = State env → A × State env

module _ {env : Env} {A : Type 0} where
  unfoldable pub pure : A → Act env A
  pure a s = (a, s)

  unfoldable pub gets : (Release → A) → Act env A
  gets f s = (f s.rel, s)

  -- A call that leaves the process, recorded with its answer.
  unfoldable pub run : (A → Effect) → (env.World → A × env.World) → Act env A
  run effect f s = let (a, w) = f s.world in (a, record s { world = w; trace = effect a ∷ s.trace })

unfoldable pub modify : {env : Env} → (Release → Release) → Act env (Unit {0})
modify f s = (tt, record s { rel = f s.rel })

-- A call that can fail, and one that has no answer.
abbrev pub call :
    {env : Env} {A : Type 0}
    → (Bool → Effect)
    → (env.World → Result A × env.World)
    → Act env (Result A)
call effect f = run (λ r. effect (is_ok r)) f

abbrev pub leave : {env : Env} → Effect → (env.World → env.World) → Act env (Unit {0})
leave effect f = run (λ _. effect) (λ w. (tt, f w))

module _ {env : Env} {A B : Type 0} where
  abbrev pub branch : (Error → Act env B) → (A → Act env B) → Result A → Act env B
  branch fail rest (ok a) = rest a
  branch fail rest (err e) = fail e

  -- `if err != nil { … }` behind a call, with the rest of the function.
  unfoldable pub check : Act env (Result A) → (Error → Act env B) → (A → Act env B) → Act env B
  check m fail rest s = let (r, s') = m s in branch fail rest r s'

  infixl 5 ◌>>=◌ ◌>>◌
  -- Opening this opens the other ways to build an action.
  unfoldable pub ◌>>=◌ : Act env A → (A → Act env B) → Act env B
  unfolding pure gets run modify check
  ◌>>=◌ m f s = let (a, s') = m s in f a s'

  abbrev pub ◌>>◌ : Act env A → Act env B → Act env B
  m >> n = m >>= λ _. n

abbrev pub set_status : (ReleaseStatus → ReleaseStatus) → Release → Release
set_status f rel = record rel { status = f rel.status }

-- `return …, fmt.Errorf("context: %w", err)` behind a call.
abbrev pub wrapping :
    {env : Env} {A B : Type 0}
    → String
    → Act env (Result A)
    → (A → Act env (Result B))
    → Act env (Result B)
wrapping context m rest = check m (λ e. pure (err (wrap context e))) rest

-- A change of the status that depends on the Release around it.
unfoldable pub update_rel :
    {env : Env} → (Release → ReleaseStatus → ReleaseStatus) → Act env (Unit {0})
unfolding modify
update_rel f = modify (λ rel. set_status (f rel) rel)
