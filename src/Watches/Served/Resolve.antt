-- ===== src/Watches/Served/Resolve.antt =====
-- What `resolveChartRef` returns is in the index.
use nelm_operator.Base.{
  ◌≡◌, refl, sym, subst, false, ◌&&◌, ◌||◌, not, Option, none, some, is_some, [], ◌∷◌, str_eq, wrap,
  Result, ok, err, Bool-cases, inl, inr,
}
use nelm_operator.Api.{Release, ReleaseChart, ChartSourceRef, ChartSourceReference}
use nelm_operator.Source.{SourceObject, build_from_chart}
use nelm_operator.World.{Env, State, ◌>>=◌, pure, branch}
use nelm_operator.Controller
use nelm_operator.Controller.{
  Reconciler, ChartRefStep, resolved, finished, Outcome, forget_sources, enter_disconnecting,
  enter_ready, is_settled_phase, same_option, enter_pending,
}
use nelm_operator.Watches.Served.{
  IsAdmitted, KeepsNames, is_some-none, reference_text, index, Serves, serves, ServesResult, gives,
  fails,
}
use nelm_operator.Watches.Served.HelmChart.{Inline, has_other, ensure_for-ServesResult}
use nelm_operator.Watches.Served.Phases.{
  fail_resolving-Serves, advance-Serves, drop_sources-Serves, fill_chart_ref-Serves,
  pending_phase-Serves, disconnecting_phase-Serves,
}

module _ (env : Env) (r : Reconciler) where
  deploy_from-Serves :
      KeepsNames env
      → (chart : ReleaseChart) (obj : SourceObject) (s : State env) → Inline env r s.rel chart obj
      → (is_some chart.oci && has_other env r chart) ≡ false
      → Serves env r s.rel (Controller.deploy_from env r obj s)
  unfolding Controller.deploy_from Controller.ensure_helm_chart ◌>>=◌
  deploy_from-Serves keeps chart obj s inline one = after _ (
      subst (λ given. ServesResult env r s.rel (Controller.ensure_for env r s.rel obj.name given s))
        (sym inline.given) (ensure_for-ServesResult env r keeps s.rel chart obj s refl inline one))
    where
      after :
          (out : Result ChartSourceRef × State env)
          → ServesResult env r s.rel out
          → Serves env r s.rel (
              branch
                (λ e. Controller.fail_resolving env r (wrap "ensure chart source HelmChart" e))
                (λ ref. pure (resolved ref))
                out.0
                out.1)
      after _ (gives ref s' q) = serves ref s' q
      after _ (fails e s') = fail_resolving-Serves env r s.rel _ s'

  run_phase-Serves :
      KeepsNames env
      → (chart : ReleaseChart) (obj : SourceObject) (ref : ChartSourceReference) (s : State env)
      → Inline env r s.rel chart obj
      → (is_some chart.oci && has_other env r chart) ≡ false
      → Serves env r s.rel (Controller.run_phase env r obj ref s)
  unfolding Controller.run_phase ◌>>=◌
  run_phase-Serves keeps chart obj ref s inline one =
      elim (Bool-cases (is_settled_phase s.rel.status.chart_source_phase)) [
        | inl settled ↦
            rw settled
              (elim (Bool-cases
                (not (same_option s.rel.status.last_applied_chart_source (some ref)))) [
                  | inl other ↦ rw other (advance-Serves env r s.rel (enter_pending ref) s)
                  | inr same ↦ rw same (deploy_from-Serves keeps chart obj s inline one)
                ])
        | inr moving ↦
            rw moving (elim (Bool-cases (str_eq s.rel.status.chart_source_phase "Pending")) [
              | inl pending ↦ rw pending (pending_phase-Serves env r s.rel obj ref s)
              | inr later ↦
                  rw later
                    (elim (Bool-cases (str_eq s.rel.status.chart_source_phase "Disconnecting")) [
                      | inl disconnecting ↦
                          rw disconnecting (disconnecting_phase-Serves env r s.rel s)
                      | inr unknown ↦ rw unknown (deploy_from-Serves keeps chart obj s inline one)
                    ])
            ])
      ]

  resolve_for-Serves :
      KeepsNames env
      → (s : State env) → IsAdmitted s.rel
      → (given : Option ReleaseChart) → s.rel.spec.chart ≡ given
      → Serves env r s.rel (Controller.resolve_for env r s.rel given s)
  unfolding Controller.resolve_for Controller.use_chart_ref ◌>>=◌ has_other
  resolve_for-Serves keeps s admitted none q =
      elim (Bool-cases (
        is_some s.rel.status.last_applied_chart_source
        || is_some s.rel.status.candidate_chart_source)) [
          | inl left ↦ rw left (drop_sources-Serves env r s.rel s)
          | inr clean ↦ rw clean (fill_chart_ref-Serves env r s.rel s.rel.spec.chart_ref s refl)
        ]
  resolve_for-Serves keeps s admitted (some chart) q =
      after
        (build_from_chart env.host.sha256_hex env.host.marshal_spec r.config.source_api_group
          r.config.source_api_version s.rel chart)
        refl
    where
      after :
          (out : Result SourceObject)
          → build_from_chart env.host.sha256_hex env.host.marshal_spec r.config.source_api_group
              r.config.source_api_version s.rel chart
            ≡ out
          → Serves env r s.rel (
              branch
                (λ e. Controller.fail_resolving env r (wrap "build source from spec.chart" e))
                (λ obj. Controller.run_phase env r obj (Controller.expected_reference r.config obj))
                out
                s)
      after (err e) p = fail_resolving-Serves env r s.rel _ s
      after (ok obj) p =
          run_phase-Serves keeps chart obj (Controller.expected_reference r.config obj) s
            (record {
              no_ref = is_some-none s.rel.spec.chart_ref (
                  subst (λ o. (is_some o && is_some s.rel.spec.chart_ref) ≡ false) q
                    admitted.chart_or_ref);
              given = q;
              build = p;
            })
            (admitted.one_source chart q)

  resolved-index :
      (rel : Release) (ref : ChartSourceRef) (s : State env)
      → Serves env r rel (resolved ref, s)
      → index env r rel ≡ reference_text ref ∷ []
  resolved-index rel ref s (serves _ _ q) = q

-- If setting an owner leaves the name of a HelmChart, then of a Release that the API server
-- admits, whatever reference to a source `resolve_chart_ref` returns, the index of chart sources
-- has the Release under that reference and under nothing else.
pub source_ref_keys-resolve_chart_ref :
    (env : Env) (r : Reconciler)
    → KeepsNames env
    → (s : State env) → IsAdmitted s.rel
    → (ref : ChartSourceRef) (s' : State env)
    → Controller.resolve_chart_ref env r s ≡ (resolved ref, s')
    → index env r s.rel ≡ reference_text ref ∷ []
unfolding Controller.resolve_chart_ref ◌>>=◌
source_ref_keys-resolve_chart_ref env r keeps s admitted ref s' q =
    resolved-index env r s.rel ref s' (
      subst (Serves env r s.rel) q
        (resolve_for-Serves env r keeps s admitted s.rel.spec.chart refl))
