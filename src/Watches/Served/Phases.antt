-- ===== src/Watches/Served/Phases.antt =====
-- The phases of `resolveChartRef` that return no source, and the given reference.
use nelm_operator.Base.{
  String, ◌≡◌, refl, ap, ◌∙◌, ◌&&◌, not, Option, none, some, is_some, List, str_eq, Error,
  Bool-cases, inl, inr,
}
use nelm_operator.Api.{Release, ReleaseStatus, ChartSourceRef, ChartSourceReference}
use nelm_operator.Source.{SourceObject}
use nelm_operator.World.{Env, State, ◌>>=◌, set_status}
use nelm_operator.Controller
use nelm_operator.Controller.{
  Reconciler, ChartRefStep, resolved, finished, Outcome, forget_sources, enter_disconnecting,
  enter_ready, is_settled_phase, same_option, enter_pending,
}
use nelm_operator.Laws.Keeps.{check-outcomes}
use nelm_operator.Watches.SourceRefs.{source_ref_keys, keys_for}
use nelm_operator.Watches.Served.{index, Serves, serves, ends}

module _ (env : Env) (r : Reconciler) where
  pub fail_resolving-Serves :
      (rel : Release) (e : Error) (s : State env)
      → Serves env r rel (Controller.fail_resolving env r e s)
  unfolding Controller.fail_resolving ◌>>=◌
  fail_resolving-Serves rel e s = ends _ _

  pub advance-Serves :
      (rel : Release) (f : ReleaseStatus → ReleaseStatus) (s : State env)
      → Serves env r rel (Controller.advance env r f s)
  unfolding Controller.advance ◌>>=◌
  advance-Serves rel f s =
      check-outcomes (Serves env r rel) (Controller.update_status env) _ _
        (record s { rel = set_status f s.rel }) (λ e s' q. ends _ _) (λ a s' q. ends _ _)

  pub drop_sources-Serves :
      (rel : Release) (s : State env) → Serves env r rel (Controller.drop_sources env r s)
  unfolding Controller.drop_sources ◌>>=◌
  drop_sources-Serves rel s =
      check-outcomes (Serves env r rel)
        (Controller.cleanup_chart_source_ref env r s.rel.status.last_applied_chart_source) _ _ s
        (λ e s' q. fail_resolving-Serves rel _ s')
        λ _ s' q.
          check-outcomes (Serves env r rel)
            (Controller.cleanup_chart_source_ref env r s'.rel.status.candidate_chart_source) _ _ s'
            (λ e s' q. fail_resolving-Serves rel _ s')
            λ _ s' q.
              check-outcomes (Serves env r rel) (Controller.update_status env) _ _
                (record s' { rel = set_status forget_sources s'.rel }) (λ e s' q. ends _ _)
                λ _ s' q.
                  check-outcomes (Serves env r rel) (Controller.cleanup_helm_chart env r) _ _ s'
                    (λ e s' q. fail_resolving-Serves rel _ s') (λ _ s' q. ends _ _)

  pub fill_chart_ref-Serves :
      (rel : Release) (given : Option ChartSourceRef) (s : State env)
      → rel.spec.chart_ref ≡ given
      → Serves env r rel (Controller.fill_chart_ref env r rel given s)
  unfolding Controller.fill_chart_ref ◌>>=◌ source_ref_keys
  fill_chart_ref-Serves rel none s q = ends _ _
  fill_chart_ref-Serves rel (some ref) s q = elim (Bool-cases (str_eq ref.namespace "")) [
    | inl empty ↦ rw empty (serves _ _ (by_ref ∙ rw empty refl))
    | inr named ↦ rw named (serves _ _ (by_ref ∙ rw named refl))
  ]
    where
      keys : Option ChartSourceRef → List String
      keys o = keys_for env.host.sha256_hex env.host.marshal_spec r.config rel o

      by_ref : index env r rel ≡ keys (some ref)
      by_ref = ap keys q

  pub pending_phase-Serves :
      (rel : Release) (obj : SourceObject) (ref : ChartSourceReference) (s : State env)
      → Serves env r rel (Controller.pending_phase env r obj ref s)
  unfolding Controller.pending_phase ◌>>=◌
  pending_phase-Serves rel obj ref s =
      elim (Bool-cases
        (not (Controller.same_option s.rel.status.candidate_chart_source (some ref)))) [
          | inl other ↦
              rw other
                (advance-Serves rel (λ st. record st { candidate_chart_source = some ref }) s)
          | inr same ↦ rw same (
              check-outcomes (Serves env r rel) (Controller.ensure_chart_source_ref env r obj) _ _ s
                (λ e s' q. fail_resolving-Serves rel _ s')
                (λ _ s' q. advance-Serves rel enter_disconnecting s'))
        ]

  pub disconnecting_phase-Serves :
      (rel : Release) (s : State env) → Serves env r rel (Controller.disconnecting_phase env r s)
  unfolding Controller.disconnecting_phase ◌>>=◌
  disconnecting_phase-Serves rel s =
      elim (Bool-cases (
        is_some s.rel.status.last_applied_chart_source
        && not (
            Controller.same_option s.rel.status.last_applied_chart_source
              s.rel.status.candidate_chart_source))) [
                | inl other ↦ rw other (
                    check-outcomes (Serves env r rel)
                      (Controller.cleanup_chart_source_ref env r
                        s.rel.status.last_applied_chart_source)
                      _ _ s (λ e s' q. fail_resolving-Serves rel _ s')
                      (λ _ s' q. advance-Serves rel enter_ready s'))
                | inr same ↦ rw same (advance-Serves rel enter_ready s)
              ]
