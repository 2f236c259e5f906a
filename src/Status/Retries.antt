-- ===== src/Status/Retries.antt =====
-- How many failures a Release is granted.
use nelm_operator.Base.{
  ℕ, suc, ◌<◌, pos, increment, increment-pos, int64_limit, ltb, ltb_ℤ, ◌≡◌, refl, sym, subst, ap,
  ◌∙◌, Bool, true, Option, none, some, List, ◌∷◌, Error, arith, inl, inr, if◌then◌else◌,
}
use nelm_operator.Api.{Release, ReleaseStatus}
use nelm_operator.World.{Env, State, Effect, StoredRelease, set_status}
use nelm_operator.Controller
use nelm_operator.Controller.{Reconciler, max_retries}
use nelm_operator.Laws.Services.{IsLawful}
use nelm_operator.Status.{shown, Stored}
use nelm_operator.Status.Failure.{Failed, handle_failure-Stored}

-- So many calls of `handleFailure` in a row, each on the Release with the status that the call
-- before it stored.
pub data Failures (env : Env) (r : Reconciler) (start : Release) : ℕ → Release → Type 0 where
  none_yet : Failures env r start 0 start
  one_more :
      (n : ℕ) (install_attempted : Bool) (e : Error) (captured : Option StoredRelease)
      (refetch : Bool) (s : State env) (st : ReleaseStatus) (t : List Effect)
      → Failures env r start n s.rel
      → (Controller.handle_failure env r install_attempted e captured refetch s).1.trace
        ≡ Effect.status_updated st true ∷ t
      → Failures env r start (suc n) (set_status (λ _. st) s.rel)

-- The status that is on record is of the kind.
newest-Stored :
    (Q : ReleaseStatus → Type 0) (st : ReleaseStatus) (b : Bool) (t : List Effect)
    → Stored Q (Effect.status_updated st b ∷ t)
    → Q st
newest-Stored Q st b t (Stored.newest _ _ _ h) = h

module _ (env : Env) (r : Reconciler) (laws : IsLawful env) (start : Release)
    (fresh : start.status.last_action_failures ≡ pos 0) where
  record Counts (n : ℕ) (rel : Release) : Type 0 where
    same_spec : rel.spec ≡ start.spec
    counted : rel.status.last_action_failures ≡ pos n

  Failures-Counts :
      (n : ℕ) (rel : Release) → Failures env r start n rel → n < int64_limit → Counts n rel
  Failures-Counts _ _ none_yet h = record { same_spec = refl; counted = fresh }
  Failures-Counts _ _ (one_more n b e captured refetch s st t earlier q) h =
      let before : Counts n s.rel = Failures-Counts n s.rel earlier (omega arith) in
      let stored : Failed s.rel st = newest-Stored (Failed s.rel) st true t (
        subst (Stored (Failed s.rel)) q
          (handle_failure-Stored env r laws b e captured refetch s)) in
      record {
        same_spec = before.same_spec;
        counted =
            stored.counted
            ∙ (ap increment before.counted
                ∙ (increment-pos n (omega arith) ∙ ap pos (omega arith)));
      }

  same_retries : (n : ℕ) (rel : Release) → Counts n rel → max_retries rel ≡ max_retries start
  same_retries n rel h i = elim (h.same_spec i).install [
    | none ↦ pos 0
    | some install ↦ install.retries
  ]

  judged :
      (n m : ℕ) (before : Release) (st : ReleaseStatus)
      → max_retries before ≡ pos m
      → st.last_action_failures ≡ pos n
      → Failed before st
      → shown "Stalled" st ≡ some (if ltb m n then "True" else "False")
  unfolding ltb_ℤ
  judged n m before st retries count h = elim h.verdict [
    | inl over ↦
        over.1.stalled ∙ ap (λ b. some (if b then "True" else "False")) (sym (test ∙ over.0))
    | inr left ↦
        left.1.stalled ∙ ap (λ b. some (if b then "True" else "False")) (sym (test ∙ left.0))
  ]
    where
      test : ltb m n ≡ ltb_ℤ (max_retries before) st.last_action_failures
      test = sym (λ i. ltb_ℤ (retries i) (count i))

  stalled :
      (n m : ℕ) (rel : Release)
      → Failures env r start n rel
      → 0 < n
      → n < int64_limit
      → max_retries start ≡ pos m
      → shown "Stalled" rel.status ≡ some (if ltb m n then "True" else "False")
  stalled _ m _ none_yet some_failure h retries = ground arith
  stalled _ m _ (one_more n b e captured refetch s st t earlier q) some_failure h retries =
      let before : Counts n s.rel = Failures-Counts n s.rel earlier (omega arith) in
      let after : Counts (suc n) (set_status (λ _. st) s.rel) =
        Failures-Counts (suc n) (set_status (λ _. st) s.rel)
          (one_more n b e captured refetch s st t earlier q) h in
      judged (suc n) m s.rel st (same_retries n s.rel before ∙ retries) after.counted (
        newest-Stored (Failed s.rel) st true t (
          subst (Stored (Failed s.rel)) q
            (handle_failure-Stored env r laws b e captured refetch s)))

-- With a client whose conditions behave as documented: a Release without failures whose spec allows
-- some retries, on which `handle_failure` is called again and again, each time with the status that
-- was stored before, is stalled exactly from the first failure past the retries on, as long as the
-- count of failures stays in the range of an int64.
pub handle_failure-stalled :
    (env : Env) (r : Reconciler)
    → IsLawful env
    → (start : Release) (n m : ℕ) (rel : Release) → start.status.last_action_failures ≡ pos 0
    → max_retries start ≡ pos m
    → Failures env r start n rel
    → 0 < n
    → n < int64_limit
    → shown "Stalled" rel.status ≡ some (if ltb m n then "True" else "False")
handle_failure-stalled env r laws start n m rel fresh retries calls some_failure range =
    stalled env r laws start fresh n m rel calls some_failure range retries
