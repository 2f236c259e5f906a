-- ===== src/Status/Failure.antt =====
-- The status that `handleFailure` stores.
use nelm_operator.Base.{
  pos, increment, ltb_ℤ, ◌≡◌, refl, sym, Bool, true, false, Option, none, some, Error, wrap, inl,
  inr, ◌⊎◌, ◌&&◌, if◌then◌else◌,
}
use nelm_operator.Api.{Release, ReleaseStatus}
use nelm_operator.World.{
  Env, State, StoredRelease, ◌>>=◌, ◌>>◌, pure, set_status, update_rel, check,
}
use nelm_operator.Controller
use nelm_operator.Controller.{
  Reconciler, Outcome, requeue_in, failed, done, retry_delay, max_retries, auto_rollback,
}
use nelm_operator.Laws.Keeps.{Keeps, OnRel, Keeps-pure}
use nelm_operator.Laws.Services.{IsLawful, find_condition}
use nelm_operator.Status.{Shows, Stored, update_status-Stored}
use nelm_operator.Status.Unchanged.{
  Fixed, Fixed-Mirrored, project-Keeps_rel, attempt_rollback-Keeps_rel,
}

-- The failure counts once, at the generation of the Release. Past the retries that the spec allows
-- the status is stalled, and up to them it is reconciling.
pub record Failed (rel : Release) (st : ReleaseStatus) : Type 0 where
  pub counted : st.last_action_failures ≡ increment rel.status.last_action_failures
  pub observed : st.observed_generation ≡ rel.generation
  pub verdict :
      ((ltb_ℤ (max_retries rel) st.last_action_failures ≡ true) × Shows "False" "False" "True" st)
      ⊎ ((ltb_ℤ (max_retries rel) st.last_action_failures ≡ false)
          × Shows "False" "True" "False" st)

-- What `handleFailure` has written before its test.
abbrev Counted : Release → Release → Type 0
Counted rel =
    Fixed rel.spec rel.generation (increment rel.status.last_action_failures) rel.generation

module _ (env : Env) (r : Reconciler) (laws : IsLawful env) where
  mark_stalled-Shows :
      (e : Error) (rel : Release)
      → Shows "False" "False" "True" (Controller.mark_stalled env e rel rel.status)
  unfolding Controller.mark_stalled find_condition
  mark_stalled-Shows e rel = record {
    ready = simp (laws.set_condition);
    reconciling = simp (laws.set_condition);
    stalled = simp (laws.set_condition);
  }

  mark_retrying-Shows :
      (e : Error) (rel : Release)
      → Shows "False" "True" "False" (Controller.mark_retrying env e rel rel.status)
  unfolding Controller.mark_retrying find_condition
  mark_retrying-Shows e rel = record {
    ready = simp (laws.set_condition);
    reconciling = simp (laws.set_condition);
    stalled = simp (laws.set_condition);
  }

  same_retries : (rel now : Release) → Counted rel now → max_retries now ≡ max_retries rel
  same_retries rel now h i = elim (h.same_spec i).install [
    | none ↦ pos 0
    | some install ↦ install.retries
  ]

  stalled-Failed :
      (e : Error) (rel now : Release)
      → Counted rel now
      → ltb_ℤ (max_retries rel) (increment rel.status.last_action_failures) ≡ true
      → Failed rel (Controller.mark_stalled env e now now.status)
  unfolding Controller.mark_stalled
  stalled-Failed e rel now h over = record {
    counted = h.same_failures;
    observed = h.same_observed;
    verdict = inl (rw (h.same_failures) over, mark_stalled-Shows e now);
  }

  retrying-Failed :
      (e : Error) (rel now : Release)
      → Counted rel now
      → ltb_ℤ (max_retries rel) (increment rel.status.last_action_failures) ≡ false
      → Failed rel (Controller.mark_retrying env e now now.status)
  unfolding Controller.mark_retrying
  retrying-Failed e rel now h under = record {
    counted = h.same_failures;
    observed = h.same_observed;
    verdict = inr (rw (h.same_failures) under, mark_retrying-Shows e now);
  }

  schedule-Stored :
      (e : Error) (rel : Release) (s : State env)
      → Counted rel s.rel
      → ltb_ℤ (max_retries rel) (increment rel.status.last_action_failures) ≡ false
      → Stored (Failed rel) (Controller.schedule_retry env r e s).1.trace
  unfolding Controller.schedule_retry ◌>>=◌ update_rel
  schedule-Stored e rel s h under =
      update_status-Stored (λ e. pure (failed (wrap "update failure status" e))) _ (λ e s. refl)
        (λ u s. refl) (record s { rel = set_status (Controller.mark_retrying env e s.rel) s.rel })
        (retrying-Failed e rel s.rel h under)

  stall-Stored :
      (e : Error) (rel : Release) (s : State env)
      → Counted rel s.rel
      → ltb_ℤ (max_retries rel) (increment rel.status.last_action_failures) ≡ true
      → Stored
          (Failed rel)
          ((do
            update_rel (Controller.mark_stalled env e)
            check
                (Controller.update_status env)
                (λ e. pure (failed (wrap "update stalled status" e)))
                (λ _. pure done))
            s).1.trace
  unfolding ◌>>=◌ update_rel
  stall-Stored e rel s h over =
      update_status-Stored (λ e. pure (failed (wrap "update stalled status" e))) (λ _. pure done)
        (λ e s. refl) (λ u s. refl)
        (record s { rel = set_status (Controller.mark_stalled env e s.rel) s.rel })
        (stalled-Failed e rel s.rel h over)

  rollback-Counted :
      (b : Bool) (rel : Release)
      → Keeps
          (OnRel (Counted rel))
          (if b then Controller.attempt_rollback env r else pure {env = env} tt)
  rollback-Counted true rel = attempt_rollback-Keeps_rel env r (Fixed-Mirrored _ _ _ _)
  rollback-Counted false rel = Keeps-pure tt

  give_up-Stored :
      (b : Bool) (e : Error) (rel : Release) (s : State env)
      → Counted rel s.rel
      → ltb_ℤ (max_retries rel) (increment rel.status.last_action_failures) ≡ true
      → Stored (Failed rel) (Controller.give_up env r b e s).1.trace
  unfolding Controller.give_up ◌>>=◌
  give_up-Stored b e rel s h over =
      stall-Stored e rel _
        ((rollback-Counted (b && auto_rollback s.rel) rel).at s (record { holds = h })).holds over

  verdict-Stored :
      (b over : Bool) (e : Error) (rel : Release) (s : State env)
      → Counted rel s.rel
      → ltb_ℤ (max_retries rel) (increment rel.status.last_action_failures) ≡ over
      → Stored
          (Failed rel)
          ((if over then Controller.give_up env r b e else Controller.schedule_retry env r e)
            s).1.trace
  verdict-Stored b true e rel s h over = give_up-Stored b e rel s h over
  verdict-Stored b false e rel s h under = schedule-Stored e rel s h under

  judged-Stored :
      (b : Bool) (e : Error) (rel : Release) (s : State env)
      → Counted rel s.rel
      → Stored
          (Failed rel)
          ((if ltb_ℤ (max_retries s.rel) s.rel.status.last_action_failures
              then Controller.give_up env r b e
              else Controller.schedule_retry env r e)
            s).1.trace
  judged-Stored b e rel s h =
      verdict-Stored b _ e rel s h
        (λ i. ltb_ℤ (sym (same_retries rel s.rel h) i) (sym h.same_failures i))

  -- What the projection leaves, counted.
  count_failure-Counted :
      (rel now : Release)
      → Fixed rel.spec rel.generation rel.status.last_action_failures rel.status.observed_generation
          now
      → Counted rel (set_status (Controller.count_failure now) now)
  unfolding Controller.count_failure
  count_failure-Counted rel now h = record {
    same_spec = h.same_spec;
    same_generation = h.same_generation;
    same_failures = simp (h.same_failures);
    same_observed = h.same_generation;
  }

-- With a client whose conditions behave as documented, the last call of `handle_failure` stores a
-- status with Ready false and one failure more, with Stalled true and Reconciling false if that is
-- more than the retries that the spec allows, and the other way round otherwise, whether or not a
-- rollback was tried and whatever it did.
pub handle_failure-Stored :
    (env : Env) (r : Reconciler)
    → IsLawful env
    → (install_attempted : Bool) (e : Error) (captured : Option StoredRelease) (refetch : Bool)
      (s : State env)
    → Stored
        (Failed s.rel)
        (Controller.handle_failure env r install_attempted e captured refetch s).1.trace
unfolding Controller.handle_failure ◌>>=◌ update_rel
handle_failure-Stored env r laws install_attempted e captured refetch s =
    judged-Stored env r laws install_attempted e s.rel _ (
      count_failure-Counted env r laws s.rel _
        ((project-Keeps_rel env r (Fixed-Mirrored _ _ _ _) _ _ captured refetch).at s (record {
          holds = record {
            same_spec = refl;
            same_generation = refl;
            same_failures = refl;
            same_observed = refl;
          };
        })).holds)
