-- ===== src/Status/Success.antt =====
-- The status that `handleSuccess` stores.
use nelm_operator.Base.{String, pos, ◌∙◌, Bool, ◌≡◌, refl, Option, wrap}
use nelm_operator.Api.{Release, ReleaseStatus}
use nelm_operator.World.{
  Env, State, StoredRelease, ◌>>=◌, ◌>>◌, pure, gets, set_status, update_rel, check,
}
use nelm_operator.Controller
use nelm_operator.Controller.{Reconciler, requeue_in, failed}
use nelm_operator.Laws.Services.{IsLawful, find_condition}
use nelm_operator.Status.{Shows, Stored, update_status-Stored}
use nelm_operator.Status.Unchanged.{Fixed, Fixed-Mirrored, project-Keeps_rel}

-- The Release is ready at its generation, and nothing has failed since.
pub record Succeeded (rel : Release) (st : ReleaseStatus) : Type 0 where
  pub shows : Shows "True" "False" "False" st
  pub no_failures : st.last_action_failures ≡ pos 0
  pub observed : st.observed_generation ≡ rel.generation

mark_success-Succeeded :
    (env : Env)
    → IsLawful env
    → (rel : Release) → Succeeded rel (Controller.mark_success env rel rel.status)
unfolding Controller.mark_success find_condition
mark_success-Succeeded env laws rel = record {
  shows = record {
    ready = simp (laws.set_condition);
    reconciling = simp (laws.set_condition);
    stalled = simp (laws.set_condition);
  };
  no_failures = refl;
  observed = refl;
}

module _ (env : Env) (r : Reconciler) (laws : IsLawful env) where
  success_marked :
      (rel : Release) (s : State env)
      → Fixed rel.spec rel.generation rel.status.last_action_failures rel.status.observed_generation
          s.rel
      → Succeeded rel (Controller.mark_success env s.rel s.rel.status)
  success_marked rel s h =
      let made : Succeeded s.rel (Controller.mark_success env s.rel s.rel.status) =
        mark_success-Succeeded env laws s.rel in
      record {
        shows = made.shows;
        no_failures = made.no_failures;
        observed = made.observed ∙ h.same_generation;
      }

  finish_success-Stored :
      (rel : Release) (s : State env)
      → Fixed rel.spec rel.generation rel.status.last_action_failures rel.status.observed_generation
          s.rel
      → Stored
          (Succeeded rel)
          ((do
            update_rel (Controller.mark_success env)
            check
                (Controller.update_status env)
                (λ e. pure (failed (wrap "update success status" e)))
                (λ _. gets (λ rel. requeue_in rel.spec.interval)))
            s).1.trace
  unfolding ◌>>=◌ update_rel
  finish_success-Stored rel s h =
      update_status-Stored (λ e. pure (failed (wrap "update success status" e)))
        (λ _. gets (λ rel. requeue_in rel.spec.interval)) (λ e s. refl) (λ u s. refl)
        (record s { rel = set_status (Controller.mark_success env s.rel) s.rel })
        (success_marked rel s h)

-- With a client whose conditions behave as documented, the last call of `handle_success` stores a
-- status with Ready true, Reconciling and Stalled false, no failures and the generation of the
-- Release observed, whatever the storage answered before.
pub handle_success-Stored :
    (env : Env) (r : Reconciler)
    → IsLawful env
    → (name namespace : String) (captured : Option StoredRelease) (refetch : Bool) (s : State env)
    → Stored
        (Succeeded s.rel)
        (Controller.handle_success env r name namespace captured refetch s).1.trace
unfolding Controller.handle_success ◌>>=◌
handle_success-Stored env r laws name namespace captured refetch s =
    finish_success-Stored env r laws s.rel _
      ((project-Keeps_rel env r (Fixed-Mirrored _ _ _ _) name namespace captured refetch).at s
        (record {
          holds = record {
            same_spec = refl;
            same_generation = refl;
            same_failures = refl;
            same_observed = refl;
          };
        })).holds
