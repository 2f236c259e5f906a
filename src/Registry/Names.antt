-- ===== src/Registry/Names.antt =====
-- Lists of names that an annotation keeps well: no name twice, and none of them empty.
use nelm_operator.Base.{
  String, ◌≡◌, refl, false, List, [], ◌∷◌, ◌++◌, str_eq, eq_iff, arith, Bool-cases, inl, inr,
}
use nelm_operator.Controller.{contains, without, add_name, delete_first}
use nelm_operator.Membership.{contains-without, contains-append_one}
use nelm_operator.SharedSources.Names.{contains-add_name}
use nelm_operator.Registry.Users.{SameUsers}

abbrev pub Distinct : List String → Type 0
Distinct [] = Unit
Distinct (n ∷ names) = (contains n names ≡ false) × Distinct names

pub record WellFormed (names : List String) : Type 0 where
  pub distinct : Distinct names
  pub no_empty : contains "" names ≡ false

append-Distinct :
    (n : String) (names : List String)
    → contains n names ≡ false
    → Distinct names
    → Distinct (names ++ (n ∷ []))
unfolding contains
append-Distinct n [] h d = (refl, tt)
append-Distinct n (m ∷ names) h d = (
  ground (arith, contains-append_one m n names, eq_iff n m, eq_iff m n, d.0),
  append-Distinct n names (ground arith) d.1,
)

pub add_name-WellFormed :
    (n : String) (names : List String)
    → str_eq n "" ≡ false
    → WellFormed names
    → WellFormed (add_name n names)
unfolding add_name
add_name-WellFormed n names named h = elim (Bool-cases (contains n names)) [
  | inl listed ↦ rw listed h
  | inr new ↦ rw new (record {
    distinct = append-Distinct n names new h.distinct;
    no_empty = ground (arith, contains-append_one "" n names, h.no_empty);
  })
]

pub SameUsers-add_name :
    (n : String) (names : List String) → SameUsers (add_name n names) (n ∷ names)
unfolding contains
SameUsers-add_name n names k = ground (arith, contains-add_name k n names)

-- Of a list without repetitions, the first entry of a name is the only one.
pub SameUsers-delete_first :
    (n : String) (names : List String)
    → Distinct names
    → SameUsers (delete_first n names) (without n names)
unfolding contains delete_first without
SameUsers-delete_first n [] d k = refl
SameUsers-delete_first n (m ∷ names) d k = ground (
  arith,
  SameUsers-delete_first n names d.1 k,
  contains-without k n names,
  eq_iff m n,
  eq_iff n k,
  eq_iff m k,
  d.0,
)

delete_first-Distinct :
    (n : String) (names : List String) → Distinct names → Distinct (delete_first n names)
unfolding delete_first
delete_first-Distinct n [] d = tt
delete_first-Distinct n (m ∷ names) d = elim (Bool-cases (str_eq m n)) [
  | inl same ↦ rw same (d.1)
  | inr other ↦ rw other (
    ground (arith, SameUsers-delete_first n names d.1 m, contains-without m n names, d.0),
    delete_first-Distinct n names d.1,
  )
]

pub delete_first-WellFormed :
    (n : String) (names : List String) → WellFormed names → WellFormed (delete_first n names)
delete_first-WellFormed n names h = record {
  distinct = delete_first-Distinct n names h.distinct;
  no_empty = ground (
    arith,
    SameUsers-delete_first n names h.distinct "",
    contains-without "" n names,
    h.no_empty,
  );
}
