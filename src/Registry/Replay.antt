-- ===== src/Registry/Replay.antt =====
-- What a sequence of attachments and detachments leaves, in the abstract view.
use mathlib.Core.Quot
use mathlib.Core.Bool.{Bool-set}
use nelm_operator.Base.{
  String, ◌≡◌, refl, ap, ◌∙◌, Bool, true, false, ◌&&◌, ◌||◌, not, Option, none, some, List, [], ◌∷◌,
  str_eq, eq_iff, eq_refl, is_nil, arith, Bool-cases, inl, inr,
}
use nelm_operator.Controller.{contains}
use nelm_operator.Membership.{contains-without}
use nelm_operator.Registry.Users.{Users, of_list, uses, is_unused, join, depart, attach, detach}

-- What the Releases do with a source; the newest first.
pub data Use : Type 0 where
  takes : String → Use
  drops : String → Use

abbrev pub replay : List Use → Option Users
replay [] = none
replay (takes n ∷ turns) = attach n (replay turns)
replay (drops n ∷ turns) = detach n (replay turns)

-- Whether the Release took the source and has not let it go since.
unfoldable pub is_using : String → List Use → Bool
is_using n [] = false
is_using n (takes m ∷ turns) = str_eq m n || is_using n turns
is_using n (drops m ∷ turns) = is_using n turns && not (str_eq m n)

unfoldable pub is_user : String → Option Users → Bool
unfolding uses
is_user n none = false
is_user n (some users) = uses n users

uses-join : (n m : String) (users : Users) → uses n (join m users) ≡ (str_eq m n || uses n users)
unfolding uses join contains
uses-join n m = Quot.ind (λ b. Bool-set _ _) (λ xs. contains-cons xs)
  where
    contains-cons : (xs : List String) → contains n (m ∷ xs) ≡ (str_eq m n || contains n xs)
    contains-cons xs = refl

uses-depart :
    (n m : String) (users : Users) → uses n (depart m users) ≡ (uses n users && not (str_eq m n))
unfolding uses depart
uses-depart n m = Quot.ind (λ b. Bool-set _ _) (λ xs. contains-without n m xs)

uses-unused : (n : String) (users : Users) → (is_unused users && uses n users) ≡ false
unfolding uses is_unused contains
uses-unused n = Quot.ind (λ b. Bool-set _ _) empty
  where
    empty : (xs : List String) → (is_nil xs && contains n xs) ≡ false
    empty [] = refl
    empty (x ∷ xs) = refl

unused-join : (m : String) (users : Users) → is_unused (join m users) ≡ false
unfolding is_unused join
unused-join m = Quot.ind (λ b. Bool-set _ _) (λ xs. refl)

is_user-attach :
    (n m : String) (o : Option Users) → is_user n (attach m o) ≡ (str_eq m n || is_user n o)
unfolding is_user attach uses of_list contains
is_user-attach n m none = refl
is_user-attach n m (some users) = uses-join n m users

is_user-detach :
    (n m : String) (o : Option Users) → is_user n (detach m o) ≡ (is_user n o && not (str_eq m n))
unfolding is_user detach
is_user-detach n m none = refl
is_user-detach n m (some users) =
    ground (arith, uses-depart n m users, uses-unused n (depart m users), eq_iff m n)

pub is_user-replay : (n : String) (turns : List Use) → is_user n (replay turns) ≡ is_using n turns
unfolding is_using is_user
is_user-replay n [] = refl
is_user-replay n (takes m ∷ turns) =
    is_user-attach n m (replay turns) ∙ ap (λ b. str_eq m n || b) (is_user-replay n turns)
is_user-replay n (drops m ∷ turns) =
    is_user-detach n m (replay turns) ∙ ap (λ b. b && not (str_eq m n)) (is_user-replay n turns)

-- A source that is there has a user.
Populated : Option Users → Type 0
Populated none = Unit
Populated (some users) = is_unused users ≡ false

attach-Populated : (m : String) (o : Option Users) → Populated (attach m o)
unfolding Populated attach is_unused of_list
attach-Populated m none = refl
attach-Populated m (some users) = unused-join m users

detach-Populated : (m : String) (o : Option Users) → Populated o → Populated (detach m o)
unfolding Populated detach
detach-Populated m none h = tt
detach-Populated m (some users) h = elim (Bool-cases (uses m users)) [
  | inr other ↦ rw other h
  | inl user ↦ rw user (elim (Bool-cases (is_unused (depart m users))) [
    | inl last ↦ rw last tt
    | inr more ↦ rw more more
  ])
]

replay-Populated : (turns : List Use) → Populated (replay turns)
unfolding Populated
replay-Populated [] = tt
replay-Populated (takes m ∷ turns) = attach-Populated m (replay turns)
replay-Populated (drops m ∷ turns) = detach-Populated m (replay turns) (replay-Populated turns)

is_unused-none_uses :
    (users : Users) → ((n : String) → uses n users ≡ false) → is_unused users ≡ true
unfolding uses is_unused contains
is_unused-none_uses = Quot.ind (λ b f g i h. Bool-set _ _ (f h) (g h) i) empty
  where
    empty : (xs : List String) → ((n : String) → contains n xs ≡ false) → is_nil xs ≡ true
    empty [] h = refl
    empty (x ∷ xs) h = ground (arith, h x, eq_refl x)

Populated-none : (o : Option Users) → Populated o → ((n : String) → is_user n o ≡ false) → o ≡ none
unfolding Populated is_user
Populated-none none h k = refl
Populated-none (some users) h k = ground (arith, is_unused-none_uses users k)

-- A source that nobody uses is not there.
pub replay-none :
    (turns : List Use) → ((n : String) → is_using n turns ≡ false) → replay turns ≡ none
replay-none turns h =
    Populated-none (replay turns) (replay-Populated turns) (λ n. is_user-replay n turns ∙ h n)
