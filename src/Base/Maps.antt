-- ===== src/Base/Maps.antt =====
-- `map[string]V` as an association list. Nothing in the program depends on a map's order.
use Prim.Native.String.{String}
use mathlib.Core.Path.{◌≡◌}
use mathlib.Core.Option.{Option, none, some}
use mathlib.Core.List.{List, [], ◌∷◌}
use native.Mathlib.Omega.{arith}
use text.Mathlib.Text.{◌==◌ as str_eq}
use text.Mathlib.TextEquality.{eq_iff}
use nelm_operator.Base.Tests.{if◌then◌else◌}

abbrev pub Dict {ℓ} : Type ℓ → Type ℓ
Dict V = List (String × V)

module _ {ℓ} {V : Type ℓ} where
  unfoldable pub lookup : String → Dict V → Option V
  lookup k [] = none
  lookup k ((j, v) ∷ m) = if str_eq j k then some v else lookup k m

  -- `m[k] = v`
  unfoldable pub insert : String → V → Dict V → Dict V
  insert key value [] = (key, value) ∷ []
  insert key value (first ∷ entries) =
      if str_eq first.0 key then (key, value) ∷ entries else first ∷ insert key value entries

  -- `maps.Copy(target, source)`: the entries of the source win.
  unfoldable pub copy_into : Dict V → Dict V → Dict V
  copy_into target [] = target
  copy_into target ((k, v) ∷ source) = copy_into (insert k v target) source

-- A read of a string map: the zero value where the key is missing.
unfoldable pub read : String → Dict String → String
unfolding lookup
read k m = elim (lookup k m) [ none ↦ "" | some v ↦ v ]

pub read-insert_self : (k v : String) (m : Dict String) → read k (insert k v m) ≡ v
unfolding read insert
read-insert_self k v [] = ground (arith, eq_iff k k)
read-insert_self k v ((j, w) ∷ m) = ground (arith, eq_iff k k, read-insert_self k v m)
