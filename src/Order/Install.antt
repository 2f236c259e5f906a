-- ===== src/Order/Install.antt =====
-- An install comes behind its plan, and a rollback behind a failed install.
use nelm_operator.Base.{
  String, ◌≡◌, refl, Bool, true, false, Option, none, some, List, ◌∷◌, Error, wrap,
  is_changes_planned, Bool-cases, inl, inr,
}
use nelm_operator.Api.{Release, Foreign}
use nelm_operator.Artifact.{ChartResult}
use nelm_operator.Options.{InstallOptions, PlanInstallOptions, ResolvedValues}
use nelm_operator.World.{Env, State, Effect, StoredRelease, plan_outcome, ◌>>=◌, ◌>>◌, modify}
use nelm_operator.Controller
use nelm_operator.Controller.{Reconciler}
use nelm_operator.Laws.Keeps.{Keeps, OnTrace, trace_rules, call-cases, check-cases}
use nelm_operator.Laws.Quiet.{emit_event-Keeps}
use nelm_operator.Laws.Quiet.Outcomes.{handle_failure-Keeps, handle_success-Keeps}
use nelm_operator.Laws.Quiet.Inputs.{
  resolve-Keeps, build_plan_install_options-Keeps, build_install_options-Keeps,
  stamp_ownership_marker-Keeps,
}
use nelm_operator.Laws.Quiet.Rollback.{handle_failure-Keeps_any}
use nelm_operator.Order.{
  here, there, found_changes, failed_install, IsOrdered, With, both, With-IsOrdered,
  Quiet-IsOrdered, Quiet-With, Scoped-With,
}

-- A rollback behind a failed install.
rolled :
    (b : Bool) (t : List Effect)
    → With failed_install t
    → With failed_install (Effect.rolled_back b ∷ t)
rolled b t (both o h) = both (there _ t o) (IsOrdered.rolled_back b t o h)

install_failed :
    (t : List Effect) → With found_changes t → With failed_install (Effect.installed false ∷ t)
install_failed t (both o h) = both (here _ t refl) (IsOrdered.installed false t o h)

install_succeeded : (t : List Effect) → With found_changes t → IsOrdered (Effect.installed true ∷ t)
install_succeeded t (both o h) = IsOrdered.installed true t o h

module _ (env : Env) (r : Reconciler) where
  report-Keeps :
      (foreign : Bool) (captured : Option StoredRelease)
      → Keeps (OnTrace IsOrdered) (Controller.report_foreign_change env r foreign captured)
  unfolding Controller.report_foreign_change
  report-Keeps false captured = search trace_rules
  report-Keeps true (some stored) = emit_event-Keeps env r Quiet-IsOrdered _ _
  report-Keeps true none = emit_event-Keeps env r Quiet-IsOrdered _ _

  finish_adoption-Keeps :
      (name namespace : String) (captured : Option StoredRelease) (foreign : Bool)
      → Keeps (OnTrace IsOrdered) (Controller.finish_adoption env r name namespace captured foreign)
  unfolding Controller.finish_adoption
  finish_adoption-Keeps name namespace captured foreign =
      search (trace_rules, Quiet-IsOrdered, emit_event-Keeps env r, handle_success-Keeps env r)

  adopt-Keeps :
      (name namespace : String) (captured : Option StoredRelease) (foreign : Bool)
      → Keeps (OnTrace IsOrdered) (Controller.adopt env r name namespace captured foreign)
  unfolding Controller.adopt
  adopt-Keeps name namespace none foreign = finish_adoption-Keeps name namespace none foreign
  adopt-Keeps name namespace (some stored) foreign =
      search
        (
          trace_rules,
          Quiet-IsOrdered,
          finish_adoption-Keeps,
          handle_failure-Keeps env r,
          stamp_ownership_marker-Keeps env r,
        )
        depth 9

  -- What follows a successful install.
  after_install-Keeps :
      (name namespace : String) (captured : Option StoredRelease) (foreign : Bool)
      (f : Release → Release)
      → Keeps (OnTrace IsOrdered) (do
        Controller.report_foreign_change env r foreign captured
        modify f
        Controller.handle_success env r name namespace none true)
  after_install-Keeps name namespace captured foreign f =
      search (trace_rules, Quiet-IsOrdered, report-Keeps, handle_success-Keeps env r)

  install-IsOrdered :
      (name namespace : String) (artifact : Option Foreign) (options : InstallOptions)
      (captured : Option StoredRelease) (foreign : Bool) (s : State env)
      → With found_changes s.trace
      → IsOrdered
          (Controller.install env r name namespace artifact options captured foreign s).1.trace
  unfolding Controller.install
  install-IsOrdered name namespace artifact options captured foreign =
      call-cases (With found_changes) (With failed_install) IsOrdered IsOrdered Effect.installed _ _
        _ install_failed install_succeeded
        (λ e s h.
          With-IsOrdered
            ((handle_failure-Keeps_any env r (Quiet-With failed_install) (Quiet-With failed_install)
                (Scoped-With env failed_install) rolled true (wrap "install release" e) none
                true).at
              s (record { holds = h })).holds)
        (λ a s h.
          ((after_install-Keeps name namespace captured foreign _).at s
            (record { holds = h })).holds)

  -- With changes found, the options are built by quiet calls, and the install follows.
  planned_install-IsOrdered :
      (name namespace : String) (chart : ChartResult) (dir : String) (resolved : ResolvedValues)
      (captured : Option StoredRelease) (foreign : Bool) (artifact : Option Foreign) (s : State env)
      → With found_changes s.trace
      → IsOrdered
          (Controller.install_changes env r name namespace chart dir resolved captured foreign
            artifact s).1.trace
  unfolding Controller.install_changes
  planned_install-IsOrdered name namespace chart dir resolved captured foreign artifact =
      check-cases (With found_changes) (With found_changes) IsOrdered _ _ _
        (λ s h.
          ((build_install_options-Keeps env r (Quiet-With found_changes) chart.chart_path dir
              resolved).at
            s (record { holds = h })).holds)
        (λ e s h.
          ((handle_failure-Keeps env r Quiet-IsOrdered _ captured false).at s
            (record { holds = With-IsOrdered h })).holds)
        (λ options s h. install-IsOrdered name namespace artifact options captured foreign s h)

  apply_plan-IsOrdered :
      (name namespace : String) (chart : ChartResult) (dir : String) (resolved : ResolvedValues)
      (captured : Option StoredRelease) (foreign : Bool) (plan : Option Foreign × Option Error)
      (s : State env) (t : List Effect)
      → s.trace ≡ Effect.install_planned (plan_outcome plan.1) ∷ t
      → IsOrdered t
      → IsOrdered
          (Controller.apply_plan env r name namespace chart dir resolved captured foreign plan
            s).1.trace
  unfolding Controller.apply_plan
  apply_plan-IsOrdered name namespace chart dir resolved captured foreign (artifact, none) s t q h =
      ((adopt-Keeps name namespace captured foreign).at s
        (record { holds = rw q (IsOrdered.planned _ t h) })).holds
  apply_plan-IsOrdered name namespace chart dir resolved captured foreign (artifact, some e) s t q
        h =
      elim (Bool-cases (is_changes_planned e)) [
        | inl found ↦ rw found (
            planned_install-IsOrdered name namespace chart dir resolved captured foreign artifact s
              (rw (q, found) (both (here _ t refl) (IsOrdered.planned _ t h))))
        | inr broken ↦
            rw broken
              ((handle_failure-Keeps env r Quiet-IsOrdered _ captured false).at s
                (record { holds = rw q (IsOrdered.planned _ t h) })).holds
      ]

  plan_and_apply-Keeps :
      (name namespace : String) (chart : ChartResult) (dir : String) (resolved : ResolvedValues)
      (captured : Option StoredRelease) (foreign : Bool) (options : PlanInstallOptions)
      → Keeps (OnTrace IsOrdered) (do
        plan ← Controller.plan_install env r name namespace options
        Controller.apply_plan env r name namespace chart dir resolved captured foreign plan)
  unfolding ◌>>=◌ Controller.plan_install
  plan_and_apply-Keeps name namespace chart dir resolved captured foreign options = record {
    at = λ s h. record {
      holds =
          apply_plan-IsOrdered name namespace chart dir resolved captured foreign _ _ s.trace refl
            h.holds;
    };
  }

  -- The install path keeps the order.
  pub reconcile_install-Keeps :
      (chart : ChartResult) (dir : String) (captured : Option StoredRelease) (foreign : Bool)
      → Keeps (OnTrace IsOrdered) (Controller.reconcile_install env r chart dir captured foreign)
  unfolding Controller.reconcile_install
  reconcile_install-Keeps chart dir captured foreign =
      search
        (
          trace_rules,
          Quiet-IsOrdered,
          handle_failure-Keeps env r,
          resolve-Keeps env,
          build_plan_install_options-Keeps env r,
          plan_and_apply-Keeps,
        )
        depth 12
