-- ===== src/Base/Text.antt =====
-- `strings.Split(s, ",")` and `strings.Join(names, ",")`, and what they do to each other.
use Prim.Native.Nat.{ℕ, zero, suc, ◌+◌, ◌/◌, ◌%◌, ◌<◌}
use Prim.Native.Char.{Char, code}
use Prim.Native.String.{String}
use Prim.Native.String as Text
use mathlib.Core.Path.{◌≡◌, refl}
use mathlib.Core.Logic.{inl, inr}
use native.Mathlib.Nat.{div-lt_self}
use native.Mathlib.Omega.{arith}
use mathlib.Core.Bool.{Bool, false, ◌||◌}
use mathlib.Core.List.{List, [], ◌∷◌}
use nelm_operator.Base.Tests.{ltb, Bool-cases, ◌==◌, if◌then◌else◌}
use nelm_operator.Base.Int.{ℤ, pos, negsuc}

abbrev pub is_comma : Char → Bool
is_comma c = code c == b','

-- A character goes in front of the first piece.
abbrev pub push_char : Char → List String → List String
push_char c [] = (Text.◌∷◌ c Text.[]) ∷ []
push_char c (piece ∷ pieces) = Text.◌∷◌ c piece ∷ pieces

-- Never empty: the pieces of "" are one empty piece.
unfoldable pub split_comma : String → List String
split_comma Text.[] = "" ∷ []
split_comma (Text.◌∷◌ c s) =
    let rest = split_comma s in if is_comma c then "" ∷ rest else push_char c rest

unfoldable pub join_comma : List String → String
join_comma [] = ""
join_comma (piece ∷ []) = piece
join_comma (piece ∷ next ∷ pieces) = Text.◌++◌ piece (Text.◌++◌ "," (join_comma (next ∷ pieces)))

abbrev pub has_comma : String → Bool
has_comma Text.[] = false
has_comma (Text.◌∷◌ c s) = is_comma c || has_comma s

-- No piece holds a comma.
abbrev pub NoCommas : List String → Type 0
NoCommas [] = Unit
NoCommas (piece ∷ pieces) = (has_comma piece ≡ false) × NoCommas pieces

abbrev digit : ℕ → String
digit zero = "0"
digit (suc zero) = "1"
digit (suc (suc zero)) = "2"
digit (suc (suc (suc zero))) = "3"
digit (suc (suc (suc (suc zero)))) = "4"
digit (suc (suc (suc (suc (suc zero))))) = "5"
digit (suc (suc (suc (suc (suc (suc zero)))))) = "6"
digit (suc (suc (suc (suc (suc (suc (suc zero))))))) = "7"
digit (suc (suc (suc (suc (suc (suc (suc (suc zero)))))))) = "8"
digit _ = "9"

-- A number falls by a division by ten, so its successor is enough fuel.
digits_of : ℕ → ℕ → String
digits_of zero n = ""
digits_of (suc fuel) n =
    let rest = Text.◌++◌ (digits_of fuel (n / 10)) (digit (n % 10)) in
    if ltb n 10 then digit n else rest

-- `%d` of a number that is not negative.
unfoldable pub show_ℕ : ℕ → String
unfolding digits_of
show_ℕ n = digits_of (suc n) n

-- `%d` of an `int`.
unfoldable pub show_ℤ : ℤ → String
unfolding show_ℕ
show_ℤ (pos n) = show_ℕ n
show_ℤ (negsuc n) = Text.◌++◌ "-" (show_ℕ (n + 1))

test_show : show_ℕ 1207 ≡ "1207"
unfolding show_ℕ
test_show = refl

test_split : split_comma "a,,b" ≡ "a" ∷ "" ∷ "b" ∷ []
unfolding split_comma
test_split = refl

test_join : join_comma ("a" ∷ "" ∷ "b" ∷ []) ≡ "a,,b"
unfolding join_comma
test_join = refl

-- Any two amounts of fuel above a number give the same digits.
digits_of-enough : (a b n : ℕ) → n < a → n < b → digits_of a n ≡ digits_of b n
unfolding digits_of
digits_of-enough zero b n h k = absurd (omega arith)
digits_of-enough (suc a) zero n h k = absurd (omega arith)
digits_of-enough (suc a) (suc b) n h k = elim (Bool-cases (ltb n 10)) [
  | inl small ↦ rw small refl
  | inr large ↦
      let fewer : n / 10 < n = div-lt_self (ground arith) (omega arith) in
      rw (large, digits_of-enough a b (n / 10) (omega arith) (omega arith)) refl
]
