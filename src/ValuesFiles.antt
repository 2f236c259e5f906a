-- ===== src/ValuesFiles.antt =====
-- How many files the references of a Release become: `Resolve` of internal/values/values.go.
use nelm_operator.Base.{
  ℕ, suc, ◌≤◌, String, List, [], ◌∷◌, length, Error, Result, ok, err, if◌then◌else◌,
}
use nelm_operator.Api.{ValuesReference}
use nelm_operator.World.{Env, State}

-- The references that are not optional.
unfoldable pub required : List ValuesReference → ℕ
required [] = 0
required (ref ∷ refs) = let rest = required refs in if ref.optional then rest else suc rest

-- An error, or a number of files between two bounds.
pub data Fills {env : Env} (low high : ℕ) : Result (List String) × State env → Type 0 where
  fails : (e : Error) (s : State env) → Fills low high (err e, s)
  fills :
      (files : List String) (s : State env)
      → low ≤ length files
      → length files ≤ high
      → Fills low high (ok files, s)
