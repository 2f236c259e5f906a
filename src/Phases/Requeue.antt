-- ===== src/Phases/Requeue.antt =====
-- A failure is never answered with an immediate requeue: `handleFailure` of
-- internal/controller/release_controller.go.
use nelm_operator.Base.{
  ◌≡◌, refl, Bool, true, false, Option, none, some, Error, panic, if◌then◌else◌,
}
use nelm_operator.Api.{Duration}
use nelm_operator.World.{Env, State, Act, StoredRelease, ◌>>=◌, update_rel}
use nelm_operator.Controller
use nelm_operator.Controller.{
  Reconciler, Outcome, failed, done, requeue_in, retry_delay, ChartRefStep, resolved, finished,
}
use nelm_operator.Laws.Keeps.{check-outcomes}

-- The outcome of an action never asks for an immediate requeue.
pub record Waits {env : Env} (m : Act env Outcome) : Type 0 where
  pub at : (s : State env) → (m s).0.requeue ≡ false

delayed :
    (delay : Option Duration)
    → (elim delay as (λ _. Outcome) [
      | none ↦ failed (panic "negative shift amount")
      | some d ↦ requeue_in d
    ]).requeue
      ≡ false
delayed none = refl
delayed (some d) = refl

module _ (env : Env) (r : Reconciler) where
  schedule-Waits : (e : Error) → Waits (Controller.schedule_retry env r e)
  unfolding Controller.schedule_retry ◌>>=◌ update_rel
  schedule-Waits e = record {
    at = λ s.
        check-outcomes (λ (out : Outcome × State env). out.0.requeue ≡ false)
          (Controller.update_status env) _ _ _ (λ e s' q. refl)
          (λ u s' q. delayed (retry_delay s'.rel.status.last_action_failures));
  }

  give_up-Waits : (b : Bool) (e : Error) → Waits (Controller.give_up env r b e)
  unfolding Controller.give_up ◌>>=◌ update_rel
  give_up-Waits b e = record {
    at = λ s.
        check-outcomes (λ (out : Outcome × State env). out.0.requeue ≡ false)
          (Controller.update_status env) _ _ _ (λ e s' q. refl) (λ u s' q. refl);
  }

  judged-Waits :
      (over b : Bool) (e : Error)
      → Waits (if over then Controller.give_up env r b e else Controller.schedule_retry env r e)
  judged-Waits true b e = give_up-Waits b e
  judged-Waits false b e = schedule-Waits e

  pub handle_failure-Waits :
      (b : Bool) (e : Error) (captured : Option StoredRelease) (refetch : Bool)
      → Waits (Controller.handle_failure env r b e captured refetch)
  unfolding Controller.handle_failure ◌>>=◌
  handle_failure-Waits b e captured refetch = record { at = λ s. (judged-Waits _ b e).at _ }
