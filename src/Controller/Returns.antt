-- ===== src/Controller/Returns.antt =====
-- `ReleaseReconciler`, and what a reconcile call returns: `ctrl.Result` with an error.
use nelm_operator.Base.{pos, Bool, true, false, Option, none, some, Error}
use nelm_operator.Api.{Duration}
use nelm_operator.Config.{OperatorConfig}

-- `has_event_recorder` is `EventRecorder != nil`.
pub record Reconciler : Type 0 where
  pub config : OperatorConfig
  pub has_event_recorder : Bool

pub record Outcome : Type 0 where
  pub requeue : Bool
  pub requeue_after : Duration
  pub error : Option Error

-- `ctrl.Result{}, nil` and the other results that the methods return.
abbrev pub done : Outcome
done = record { requeue = false; requeue_after = pos 0; error = none }

abbrev pub failed : Error → Outcome
failed e = record { requeue = false; requeue_after = pos 0; error = some e }

abbrev pub requeue_now : Outcome
requeue_now = record { requeue = true; requeue_after = pos 0; error = none }

abbrev pub requeue_in : Duration → Outcome
requeue_in d = record { requeue = false; requeue_after = d; error = none }
