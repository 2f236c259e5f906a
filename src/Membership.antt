-- ===== src/Membership.antt =====
-- Names in lists: `slices.Contains` and the lists that the program makes.
use nelm_operator.Base.{
  String, ◌≡◌, refl, true, ◌&&◌, ◌||◌, not, List, [], ◌∷◌, ◌++◌, str_eq, eq_iff, arith,
}
use nelm_operator.Controller.{contains, without}

pub contains-append_one :
    (n m : String) (names : List String)
    → contains n (names ++ (m ∷ [])) ≡ (str_eq m n || contains n names)
unfolding contains
contains-append_one n m [] = refl
contains-append_one n m (k ∷ names) = ground (arith, contains-append_one n m names)

pub contains-without :
    (n m : String) (names : List String)
    → contains n (without m names) ≡ (contains n names && not (str_eq m n))
unfolding contains without
contains-without n m [] = refl
contains-without n m (k ∷ names) =
    ground (arith, contains-without n m names, eq_iff k m, eq_iff k n, eq_iff m n)

pub contains-append_left :
    (n : String) (xs ys : List String) → contains n xs ≡ true → contains n (xs ++ ys) ≡ true
unfolding contains
contains-append_left n [] ys h = ground arith
contains-append_left n (x ∷ xs) ys h = ground (arith, contains-append_left n xs ys)

pub contains-append_right :
    (n : String) (xs ys : List String) → contains n ys ≡ true → contains n (xs ++ ys) ≡ true
unfolding contains
contains-append_right n [] ys h = h
contains-append_right n (x ∷ xs) ys h = ground (arith, contains-append_right n xs ys)
