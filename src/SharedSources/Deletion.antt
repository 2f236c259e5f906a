-- ===== src/SharedSources/Deletion.antt =====
-- When `cleanupChartSourceRef` deletes a chart source.
use nelm_operator.Base.{
  ℕ, suc, String, ◌≡◌, Bool, true, false, none, some, List, [], ◌∷◌, Error, ok, err, join_comma,
  if◌then◌else◌,
}
use nelm_operator.World.{
  Env, State, Effect, Unstructured, ObjectKey, object_deleted, source_updated,
}
use nelm_operator.Controller
use nelm_operator.Controller.{Reconciler, Latest, Attempt}

abbrev pub is_deletion : Effect → Bool
is_deletion (Effect.object_deleted key b) = true
is_deletion _ = false

-- How many deletions are on record.
unfoldable pub deletions : List Effect → ℕ
deletions [] = 0
deletions (e ∷ t) = let rest = deletions t in if is_deletion e then suc rest else rest

-- How the calls of a cleanup end: nothing is deleted, or the last call is the one deletion, right
-- behind an update that left the list empty.
pub data CleanupEnds (before : List Effect) : List Effect → Type 0 where
  keeps : (t : List Effect) → deletions t ≡ deletions before → CleanupEnds before t
  deletes :
      (key updated : ObjectKey) (b : Bool) (t : List Effect)
      → deletions t ≡ deletions before
      → CleanupEnds before (object_deleted key b ∷ source_updated updated "" true ∷ t)

module _ (env : Env) (r : Reconciler) (n : ℕ) where
  -- What is noted is what the last call wrote.
  data Noted : State env × Latest env r → Type 0 where
    nothing : (s : State env) → deletions s.trace ≡ n → Noted (s, none)
    wrote :
        (live : Unstructured env.Json) (names : List String) (s : State env) (key : ObjectKey)
        (t : List Effect)
        → s.trace ≡ source_updated key (join_comma names) true ∷ t
        → deletions t ≡ n
        → Noted (s, some (live, names))

  -- An attempt that fails has noted nothing.
  data Ends : Attempt env r → Type 0 where
    failing : (e : Error) (s : State env) → deletions s.trace ≡ n → Ends (err e, (s, none))
    ending : (u : Unit {0}) (p : State env × Latest env r) → Noted p → Ends (ok u, p)

  -- Nothing is noted.
  data Fresh (p : State env × Latest env r) : Type 0 where
    fresh : (s : State env) → p ≡ (s, none) → deletions s.trace ≡ n → Fresh p
