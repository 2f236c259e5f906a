-- ===== src/Status/Waiting.antt =====
-- What a source that is not ready leaves: `Reconcile` behind `ResolveChartRef`.
use nelm_operator.Base.{◌≡◌, ◌∷◌, true, false, Error, wrap}
use nelm_operator.Api.{Release, ReleaseStatus}
use nelm_operator.World.{Env, State, Effect}
use nelm_operator.Controller
use nelm_operator.Controller.{Outcome, done, failed}

-- A status that differs at most in what mirrors the release storage.
pub record Mirrors (before after : ReleaseStatus) : Type 0 where
  pub same_failures : after.last_action_failures ≡ before.last_action_failures
  pub same_observed : after.observed_generation ≡ before.observed_generation
  pub same_conditions : after.conditions ≡ before.conditions
  pub same_phase : after.chart_source_phase ≡ before.chart_source_phase
  pub same_applied : after.last_applied_chart_source ≡ before.last_applied_chart_source
  pub same_digest : after.last_attempted_artifact_digest ≡ before.last_attempted_artifact_digest

-- The one call is the update of the status, and nothing is asked for again.
pub data Waits {env : Env} (s : State env) : Outcome × State env → Type 0 where
  waits :
      (st : ReleaseStatus) (rel : Release) (w : env.World)
      → Mirrors s.rel.status st
      → Waits s
          (done, record { rel = rel; world = w; trace = Effect.status_updated st true ∷ s.trace })
  not_stored :
      (e : Error) (st : ReleaseStatus) (rel : Release) (w : env.World)
      → Mirrors s.rel.status st
      → Waits s (
        failed (wrap "update source-not-ready status" e),
        record { rel = rel; world = w; trace = Effect.status_updated st false ∷ s.trace },
      )
