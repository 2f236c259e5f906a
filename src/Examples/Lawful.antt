-- ===== src/Examples/Lawful.antt =====
-- The small cluster behaves as documented.
use nelm_operator.Base.{
  ℕ, zero, suc, String, ◌≡◌, refl, List, [], ◌∷◌, some, str_eq, eq_iff, arith, if◌then◌else◌,
  is_conflict, Result, ok, err, Bool-cases, inl, inr, subst,
}
use nelm_operator.Api.{Condition}
use nelm_operator.Laws.Services.{find_condition, Retried, once, again, IsLawful}
use nelm_operator.Examples.Cluster.{put_condition, retry, is_conflicted, cluster}

find_condition-put :
    (c : Condition) (conditions : List Condition) (type : String)
    → find_condition type (put_condition c conditions)
      ≡ (if str_eq c.type type then some c else find_condition type conditions)
unfolding find_condition put_condition
find_condition-put c [] type = refl
find_condition-put c (d ∷ conditions) type = ground (
  arith,
  eq_iff c.type type,
  eq_iff d.type c.type,
  eq_iff d.type type,
  find_condition-put c conditions type,
)

module _ {S : Type 0} (f : S → Result (Unit {0}) × S) where
  retry-Retried : (n : ℕ) (s : S) → Retried f s (retry n f s)
  unfolding retry
  retry-Retried zero s = once s
  retry-Retried (suc n) s = after (retry-Retried n) (f s) refl
    where
      after :
          ((s : S) → Retried f s (retry n f s))
          → (out : Result (Unit {0}) × S) → f s ≡ out
          → Retried f s (if is_conflicted out.0 then retry n f out.1 else out)
      after rest (ok u, s') q = subst (Retried f s) q (once s)
      after rest (err e, s') q = elim (Bool-cases (is_conflict e)) [
        | inl again_due ↦ rw again_due (again s e s' q again_due (rest s'))
        | inr final ↦ rw final (subst (Retried f s) q (once s))
      ]

pub cluster-IsLawful : IsLawful cluster
cluster-IsLawful = record {
  set_condition = find_condition-put;
  retried = λ S f s. retry-Retried f 4 s;
}
