-- ===== src/Phases/Bound.antt =====
-- How long the phases of a chart source can keep a Release from its deployment.
use nelm_operator.Base.{
  ℕ, suc, ◌≤◌, ◌≡◌, refl, sym, subst, ap, ◌∙◌, Bool, true, false, Option, none, some, List, ◌∷◌,
  Error, arith,
}
use nelm_operator.Api.{ReleaseStatus, ChartSourceReference}
use nelm_operator.Source.{SourceObject}
use nelm_operator.World.{Env, State, Effect, ◌>>=◌, pure}
use nelm_operator.Controller
use nelm_operator.Controller.{
  Reconciler, ChartRefStep, resolved, finished, requeue_now, is_settled_phase, same_option,
}
use nelm_operator.Laws.Keeps.{check-outcomes}
use nelm_operator.Laws.Services.{IsLawful}
use nelm_operator.Phases.{
  steps_left, accepted, refused, PhaseStep, deploys, advances, ensure_fails, cleanup_fails,
}
use nelm_operator.Phases.Progress.{run_phase-PhaseStep}
use nelm_operator.Phases.Requeue.{handle_failure-Waits}

-- Whether a step asks for an immediate requeue, and the status that the newest call stored.
abbrev requeues : ChartRefStep → Bool
requeues (resolved ref) = false
requeues (finished outcome) = outcome.requeue

abbrev newest_status : List Effect → Option ReleaseStatus
newest_status (Effect.status_updated st b ∷ t) = some st
newest_status _ = none

-- Calls one after another, each of which stores a status and is requeued at once, and the next of
-- which finds that status.
pub data Calls (env : Env) (r : Reconciler) (obj : SourceObject) (ref : ChartSourceReference)
    : ℕ → State env → Type 0 where
  last : (s : State env) → Calls env r obj ref 0 s
  next :
      (n : ℕ) (s s' : State env)
      → requeues (Controller.run_phase env r obj ref s).0 ≡ true
      → newest_status (Controller.run_phase env r obj ref s).1.trace ≡ some s'.rel.status
      → Calls env r obj ref n s'
      → Calls env r obj ref (suc n) s

module _ (env : Env) (r : Reconciler) (obj : SourceObject) (ref : ChartSourceReference) where
  resolving-waits :
      (e : Error) (s : State env) → requeues (Controller.fail_resolving env r e s).0 ≡ false
  unfolding Controller.fail_resolving ◌>>=◌
  resolving-waits e s = (handle_failure-Waits env r false e none false).at s

  deploying-waits : (s : State env) → requeues (Controller.deploy_from env r obj s).0 ≡ false
  unfolding Controller.deploy_from pure
  deploying-waits s =
      check-outcomes (λ (out : ChartRefStep × State env). requeues out.0 ≡ false)
        (Controller.ensure_helm_chart env r obj.name) _ _ s (λ e s' q. resolving-waits _ s')
        (λ a s' q. refl)

  -- What a requeued step has stored is one step nearer.
  nearer :
      (s : State env) (st : ReleaseStatus) (out : ChartRefStep × State env)
      → PhaseStep env r obj ref s out
      → requeues out.0 ≡ true
      → newest_status out.1.trace ≡ some st
      → suc (steps_left ref st) ≡ steps_left ref s.rel.status
  nearer s st _ (deploys q) again found =
      let clash : true ≡ false = sym again ∙ deploying-waits s in ground arith
  nearer s st _ (ensure_fails e s' q) again found =
      let clash : true ≡ false = sym again ∙ resolving-waits _ s' in ground arith
  nearer s st _ (cleanup_fails e s' q) again found =
      let clash : true ≡ false = sym again ∙ resolving-waits _ s' in ground arith
  nearer s st _ (advances (refused sent e rel w t h)) again found =
      let clash : true ≡ false = sym again in ground arith
  nearer s st _ (advances (accepted sent rel w t h)) again found =
      subst (λ x. suc (steps_left ref x) ≡ steps_left ref s.rel.status) (inside found) h
    where
      inside : some sent ≡ some st → sent ≡ st
      inside q = ap (λ o. elim o [ none ↦ sent | some x ↦ x ]) q

steps_left-bound : (ref : ChartSourceReference) (st : ReleaseStatus) → steps_left ref st ≤ 4
unfolding steps_left
steps_left-bound ref st = ground arith

Calls-bound :
    (env : Env) (r : Reconciler)
    → IsLawful env
    → (obj : SourceObject) (ref : ChartSourceReference) (n : ℕ) (s : State env)
    → Calls env r obj ref n s
    → n ≤ steps_left ref s.rel.status
Calls-bound env r laws obj ref _ _ (last s) = omega arith
Calls-bound env r laws obj ref _ _ (next n s s' again found more) =
    let rest : n ≤ steps_left ref s'.rel.status = Calls-bound env r laws obj ref n s' more in
    let step : suc (steps_left ref s'.rel.status) ≡ steps_left ref s.rel.status =
      nearer env r obj ref s s'.rel.status _ (run_phase-PhaseStep env r laws obj ref s) again
        found in
    omega arith

-- With a client that retries as documented, for one source that is wanted throughout: of calls of
-- `run_phase` that store a status and are requeued at once, each of which finds the status that the
-- one before has stored, at most four follow one another.
pub Calls-bounded :
    (env : Env) (r : Reconciler)
    → IsLawful env
    → (obj : SourceObject) (ref : ChartSourceReference) (n : ℕ) (s : State env)
    → Calls env r obj ref n s
    → n ≤ 4
Calls-bounded env r laws obj ref n s calls =
    let nearest : n ≤ steps_left ref s.rel.status = Calls-bound env r laws obj ref n s calls in
    let most : steps_left ref s.rel.status ≤ 4 = steps_left-bound ref s.rel.status in omega arith
