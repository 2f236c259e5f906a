-- ===== src/Registry/Users.antt =====
-- The abstract view of a chart source: which Releases use it, in no order, or that there is none.
use mathlib.Core.Quot
use mathlib.Core.Quot.{Quot, Quot-set}
use mathlib.Core.Bool.{Bool-set}
use nelm_operator.Base.{
  String, ◌≡◌, refl, Bool, not, Option, none, some, List, [], ◌∷◌, eq_refl, is_nil, if◌then◌else◌,
  arith,
}
use nelm_operator.Controller.{contains, without}
use nelm_operator.Membership.{contains-without}

-- The same Releases are listed.
abbrev pub SameUsers : List String → List String → Type 0
SameUsers xs ys = (n : String) → contains n xs ≡ contains n ys

abbrev pub Users : Type 0
Users = Quot SameUsers

pub SameUsers-is_nil : (xs ys : List String) → SameUsers xs ys → is_nil xs ≡ is_nil ys
unfolding contains
SameUsers-is_nil [] [] h = refl
SameUsers-is_nil [] (y ∷ ys) h = ground (arith, h y, eq_refl y)
SameUsers-is_nil (x ∷ xs) [] h = ground (arith, h x, eq_refl x)
SameUsers-is_nil (x ∷ xs) (y ∷ ys) h = refl

pub SameUsers-cons :
    (m : String) (xs ys : List String) → SameUsers xs ys → SameUsers (m ∷ xs) (m ∷ ys)
unfolding contains
SameUsers-cons m xs ys h n = ground (arith, h n)

pub SameUsers-without :
    (m : String) (xs ys : List String) → SameUsers xs ys → SameUsers (without m xs) (without m ys)
SameUsers-without m xs ys h n = rw (contains-without n m xs, contains-without n m ys, h n) refl

unfoldable pub of_list : List String → Users
of_list names = Quot.mk names

-- Whether a Release is a user, and whether none is.
unfoldable pub uses : String → Users → Bool
uses n = Quot.lift Bool-set (contains n) (λ xs ys h. h n)

unfoldable pub is_unused : Users → Bool
is_unused = Quot.lift Bool-set is_nil SameUsers-is_nil

unfoldable pub join : String → Users → Users
join n =
    Quot.lift Quot-set (λ xs. Quot.mk (n ∷ xs)) (λ xs ys h. Quot.sound (SameUsers-cons n xs ys h))

unfoldable pub depart : String → Users → Users
depart n =
    Quot.lift Quot-set (λ xs. Quot.mk (without n xs))
      (λ xs ys h. Quot.sound (SameUsers-without n xs ys h))

-- A Release takes the source into use, which makes it if there is none.
unfoldable pub attach : String → Option Users → Option Users
unfolding of_list join
attach n none = some (of_list (n ∷ []))
attach n (some users) = some (join n users)

-- A Release lets the source go; the last user takes it away.
unfoldable pub detach : String → Option Users → Option Users
unfolding uses is_unused depart
detach n none = none
detach n (some users) =
    if not (uses n users)
    then some users
    else if is_unused (depart n users)
    then none
    else some (depart n users)

-- Equal lists of users are the same users.
pub of_list_eq : (xs ys : List String) → SameUsers xs ys → of_list xs ≡ of_list ys
unfolding of_list
of_list_eq xs ys h = Quot.sound h
