-- ===== src/Phases/Progress.antt =====
-- Each call of `run_phase` that meets no error is one step nearer to the deployment.
use nelm_operator.Base.{
  ◌≡◌, refl, sym, subst, suc, Bool, true, false, ◌&&◌, not, Option, some, is_some, ◌∷◌, Result, ok,
  err, str_eq, if◌then◌else◌, Bool-cases, inl, inr,
}
use nelm_operator.Api.{Release, ReleaseStatus, ChartSourceReference}
use nelm_operator.Source.{SourceObject}
use nelm_operator.World.{Env, State, Effect, ◌>>=◌, check, pure, set_status, branch, is_ok}
use nelm_operator.Controller
use nelm_operator.Controller.{
  Reconciler, ChartRefStep, finished, same_option, same_reference, enter_pending,
  enter_disconnecting, enter_ready, is_settled_phase,
}
use nelm_operator.Laws.Keeps.{check-outcomes}
use nelm_operator.Laws.Services.{IsLawful}
use nelm_operator.Phases.{
  steps_left, Advanced, accepted, refused, PhaseStep, deploys, advances, ensure_fails,
  cleanup_fails,
}
use nelm_operator.Phases.References.{same_reference_refl}
use nelm_operator.Phases.Still.{ensure-Keeps_rel, cleanup-Keeps_rel}

-- The update that `advance` makes.
advance-Advanced :
    (env : Env) (r : Reconciler) (f : ReleaseStatus → ReleaseStatus) (Q : ReleaseStatus → Type 0)
    (s : State env)
    → Q (f s.rel.status)
    → Advanced Q (Controller.advance env r f s)
unfolding Controller.advance Controller.update_status ◌>>=◌
advance-Advanced env r f Q s h = after (env.kube.update_status (set_status f s.rel) s.world)
  where
    after :
        (out : Result Release × env.World)
        → Advanced Q (
            check
              (λ s'.
                (branch {env = env} {A = Release} {B = Result (Unit {0})}
                  (λ e s. (err e, s))
                  (λ stored s. (ok tt, record s { rel = stored }))
                  out.0
                  (record s' {
                    world = out.1;
                    trace = Effect.status_updated s'.rel.status (is_ok out.0) ∷ s'.trace;
                  })))
              (λ e. pure (finished (Controller.failed e)))
              (λ _. pure (finished Controller.requeue_now))
              (record s { rel = set_status f s.rel }))
    after (ok rel, w) = accepted _ _ _ _ h
    after (err e, w) = refused _ _ _ _ _ h

enter_ready-nearer :
    (ref : ChartSourceReference) (st : ReleaseStatus) (matches : Bool)
    → same_option st.candidate_chart_source (some ref) ≡ matches
    → is_settled_phase st.chart_source_phase ≡ false
    → str_eq st.chart_source_phase "Pending" ≡ false
    → str_eq st.chart_source_phase "Disconnecting" ≡ true
    → suc (steps_left ref (enter_ready st)) ≡ steps_left ref st
unfolding steps_left
enter_ready-nearer ref st true m unsettled later disconnecting =
    simp (m, unsettled, later, disconnecting)
enter_ready-nearer ref st false m unsettled later disconnecting =
    simp (m, unsettled, later, disconnecting)

unknown_left :
    (ref : ChartSourceReference) (st : ReleaseStatus)
    → is_settled_phase st.chart_source_phase ≡ false
    → str_eq st.chart_source_phase "Pending" ≡ false
    → str_eq st.chart_source_phase "Disconnecting" ≡ false
    → steps_left ref st ≡ 0
unfolding steps_left
unknown_left ref st unsettled later unknown = simp (unsettled, later, unknown)

module _ (env : Env) (r : Reconciler) (laws : IsLawful env) (obj : SourceObject)
    (ref : ChartSourceReference) where
  -- The Release that a call on a source leaves.
  ensure-same :
      (s : State env) (out : Result (Unit {0})) (s' : State env)
      → Controller.ensure_chart_source_ref env r obj s ≡ (out, s')
      → s'.rel ≡ s.rel
  ensure-same s out s' q =
      subst (λ p. p.1.rel ≡ s.rel) q
        ((ensure-Keeps_rel env r (λ rel. rel ≡ s.rel) laws obj).at s
          (record { holds = refl })).holds

  cleanup-same :
      (old : Option ChartSourceReference) (s : State env) (out : Result (Unit {0})) (s' : State env)
      → Controller.cleanup_chart_source_ref env r old s ≡ (out, s')
      → s'.rel ≡ s.rel
  cleanup-same old s out s' q =
      subst (λ p. p.1.rel ≡ s.rel) q
        ((cleanup-Keeps_rel env r (λ rel. rel ≡ s.rel) laws old).at s
          (record { holds = refl })).holds

  -- A step behind a call on a source.
  advance-PhaseStep :
      (f : ReleaseStatus → ReleaseStatus) (s s' : State env)
      → s'.rel ≡ s.rel
      → suc (steps_left ref (f s.rel.status)) ≡ steps_left ref s.rel.status
      → PhaseStep env r obj ref s (Controller.advance env r f s')
  advance-PhaseStep f s s' same nearer = advances (
      advance-Advanced env r f _ s' (
        subst (λ rel. suc (steps_left ref (f rel.status)) ≡ steps_left ref s.rel.status) (sym same)
          nearer))

  pending-PhaseStep :
      (s : State env) (matches : Bool)
      → same_option s.rel.status.candidate_chart_source (some ref) ≡ matches
      → is_settled_phase s.rel.status.chart_source_phase ≡ false
      → str_eq s.rel.status.chart_source_phase "Pending" ≡ true
      → PhaseStep env r obj ref s (Controller.pending_phase env r obj ref s)
  unfolding Controller.pending_phase ◌>>=◌ steps_left
  pending-PhaseStep s false retargeted unsettled pending = rw retargeted (
      advance-PhaseStep (λ st. record st { candidate_chart_source = some ref }) s s refl
        (simp (same_reference_refl, retargeted, unsettled, pending)))
  pending-PhaseStep s true matches unsettled pending = rw matches (
      check-outcomes (PhaseStep env r obj ref s) (Controller.ensure_chart_source_ref env r obj) _ _
        s ensure_fails
        (λ a s' q.
          advance-PhaseStep enter_disconnecting s s' (ensure-same s (ok a) s' q)
            (simp (matches, unsettled, pending))))

  disconnecting-PhaseStep :
      (s : State env) (matches : Bool)
      → same_option s.rel.status.candidate_chart_source (some ref) ≡ matches
      → is_settled_phase s.rel.status.chart_source_phase ≡ false
      → str_eq s.rel.status.chart_source_phase "Pending" ≡ false
      → str_eq s.rel.status.chart_source_phase "Disconnecting" ≡ true
      → (releases : Bool)
      → (is_some s.rel.status.last_applied_chart_source
          && not (
              same_option s.rel.status.last_applied_chart_source
                s.rel.status.candidate_chart_source))
        ≡ releases
      → PhaseStep env r obj ref s (Controller.disconnecting_phase env r s)
  unfolding Controller.disconnecting_phase ◌>>=◌
  disconnecting-PhaseStep s matches m unsettled later disconnecting false keeps = rw keeps (
      advance-PhaseStep enter_ready s s refl
        (enter_ready-nearer ref s.rel.status matches m unsettled later disconnecting))
  disconnecting-PhaseStep s matches m unsettled later disconnecting true releases = rw releases (
      check-outcomes (PhaseStep env r obj ref s)
        (Controller.cleanup_chart_source_ref env r s.rel.status.last_applied_chart_source) _ _ s
        cleanup_fails
        (λ a s' q.
          advance-PhaseStep enter_ready s s' (cleanup-same _ s (ok a) s' q)
            (enter_ready-nearer ref s.rel.status matches m unsettled later disconnecting)))

  settled-PhaseStep :
      (s : State env) (applied : Bool)
      → same_option s.rel.status.last_applied_chart_source (some ref) ≡ applied
      → is_settled_phase s.rel.status.chart_source_phase ≡ true
      → PhaseStep env r obj ref s (
          (if not applied
              then Controller.advance env r (enter_pending ref)
              else Controller.deploy_from env r obj)
            s)
  unfolding steps_left
  settled-PhaseStep s false other settled =
      advance-PhaseStep (enter_pending ref) s s refl (simp (same_reference_refl, other, settled))
  settled-PhaseStep s true applied settled = deploys (simp (applied, settled))

  unsettled-PhaseStep :
      (s : State env)
      → is_settled_phase s.rel.status.chart_source_phase ≡ false
      → PhaseStep env r obj ref s (
          (if str_eq s.rel.status.chart_source_phase "Pending"
              then Controller.pending_phase env r obj ref
              else (if str_eq s.rel.status.chart_source_phase "Disconnecting"
                  then Controller.disconnecting_phase env r
                  else Controller.deploy_from env r obj))
            s)
  unsettled-PhaseStep s unsettled =
      elim (Bool-cases (str_eq s.rel.status.chart_source_phase "Pending")) [
        | inl pending ↦ rw pending (pending-PhaseStep s _ refl unsettled pending)
        | inr later ↦ elim (Bool-cases (str_eq s.rel.status.chart_source_phase "Disconnecting")) [
          | inl last ↦
              rw (later, last) (disconnecting-PhaseStep s _ refl unsettled later last _ refl)
          | inr unknown ↦
              rw (later, unknown) (deploys (unknown_left ref s.rel.status unsettled later unknown))
        ]
      ]

-- In any phase, in any world whose client retries as documented, for any source and any reference
-- that is wanted: one call of `run_phase` deploys from the source, when no step is left; or it
-- stores a status from which one step less is left, and is requeued at once if the server takes it;
-- or it reports the error with which the call on a source of that phase ended.
pub run_phase-PhaseStep :
    (env : Env) (r : Reconciler)
    → IsLawful env
    → (obj : SourceObject) (ref : ChartSourceReference) (s : State env)
    → PhaseStep env r obj ref s (Controller.run_phase env r obj ref s)
unfolding Controller.run_phase ◌>>=◌
run_phase-PhaseStep env r laws obj ref s =
    elim (Bool-cases (is_settled_phase s.rel.status.chart_source_phase)) [
      | inl settled ↦ rw settled (settled-PhaseStep env r laws obj ref s _ refl settled)
      | inr unsettled ↦ rw unsettled (unsettled-PhaseStep env r laws obj ref s unsettled)
    ]
