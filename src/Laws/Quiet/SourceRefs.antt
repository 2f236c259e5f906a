-- ===== src/Laws/Quiet/SourceRefs.antt =====
-- The annotation of a chart source is read and written by quiet calls.
use nelm_operator.Base.{
  String, refl, Option, none, some, List, Result, ok, err, Bool-cases, inl, inr,
}
use nelm_operator.Api.{ChartSourceReference}
use nelm_operator.Source.{SourceObject}
use nelm_operator.World.{Env, State, Effect, Unstructured, run}
use nelm_operator.Controller
use nelm_operator.Controller.{Reconciler, Latest}
use nelm_operator.Laws.Keeps.{Keeps, OnTrace, trace_rules}
use nelm_operator.Laws.Services.{IsLawful, Keeps-retry, Retried-keeps}
use nelm_operator.Laws.Quiet.{Quiet}

module _ (env : Env) (r : Reconciler) {Q : List Effect → Type 0} (quiet : Quiet Q) where
  create_named-Keeps : (obj : SourceObject) → Keeps (OnTrace Q) (Controller.create_named env r obj)
  unfolding Controller.create_named
  create_named-Keeps obj = search (trace_rules, quiet.cons)

  update_names-Keeps :
      (names : List String) (live : Unstructured env.Json)
      → Keeps (OnTrace Q) (Controller.update_names env r names live)
  unfolding Controller.update_names
  update_names-Keeps names live = search (trace_rules, quiet.cons)

  ensure_attempt-Keeps :
      (obj : SourceObject) → Keeps (OnTrace Q) (Controller.ensure_attempt env r obj)
  unfolding Controller.ensure_attempt
  ensure_attempt-Keeps obj =
      search (trace_rules, quiet.cons, create_named-Keeps, update_names-Keeps) depth 9

  pub ensure-Keeps :
      IsLawful env
      → (obj : SourceObject) → Keeps (OnTrace Q) (Controller.ensure_chart_source_ref env r obj)
  unfolding Controller.ensure_chart_source_ref
  ensure-Keeps laws obj =
      Keeps-retry laws (Controller.ensure_attempt env r obj) (ensure_attempt-Keeps obj)

  delete_unused-Keeps :
      (ref : ChartSourceReference) (live : Unstructured env.Json)
      → Keeps (OnTrace Q) (Controller.delete_unused env r ref live)
  unfolding Controller.delete_unused
  delete_unused-Keeps ref live = search (trace_rules, quiet.cons)

  note_update-keeps :
      (names : List String) (latest : Latest env r)
      (out : Result (Unstructured env.Json) × State env)
      → Q out.1.trace
      → Q (Controller.note_update env r names latest out).1.0.trace
  unfolding Controller.note_update
  note_update-keeps names latest (err e, s) h = h
  note_update-keeps names latest (ok stored, s) h = h

  drop_name-keeps :
      (latest : Latest env r) (out : Result (Unstructured env.Json) × State env)
      → Q out.1.trace
      → Q (Controller.drop_name env r latest out).1.0.trace
  unfolding Controller.drop_name
  drop_name-keeps latest (err e, s) h = h
  drop_name-keeps latest (ok live, s) h =
      let names = Controller.release_ref_names live.annotations in
      let rest = Controller.delete_first s.rel.name names in
      elim (Bool-cases (Controller.contains s.rel.name names)) [
        | inl listed ↦ rw listed (
            note_update-keeps rest latest (Controller.update_names env r rest live s)
              ((update_names-Keeps rest live).at s (record { holds = h })).holds)
        | inr unlisted ↦ rw unlisted h
      ]

  cleanup_attempt-keeps :
      (ref : ChartSourceReference) (s : State env × Latest env r)
      → Q s.0.trace
      → Q (Controller.cleanup_attempt env r ref s).1.0.trace
  unfolding Controller.cleanup_attempt run
  cleanup_attempt-keeps ref (s, latest) h = drop_name-keeps latest _ (quiet.cons _ _ refl h)

  finish_cleanup-Keeps :
      (ref : ChartSourceReference) (result : Result (Unit {0})) (latest : Latest env r)
      → Keeps (OnTrace Q) (Controller.finish_cleanup env r ref result latest)
  unfolding Controller.finish_cleanup
  finish_cleanup-Keeps ref (err e) latest = search trace_rules
  finish_cleanup-Keeps ref (ok _) none = search trace_rules
  finish_cleanup-Keeps ref (ok _) (some (live, names)) = search (trace_rules, delete_unused-Keeps)

  pub cleanup-Keeps :
      IsLawful env
      → (ref : Option ChartSourceReference)
      → Keeps (OnTrace Q) (Controller.cleanup_chart_source_ref env r ref)
  unfolding Controller.cleanup_chart_source_ref
  cleanup-Keeps laws none = record { at = λ s h. h }
  cleanup-Keeps laws (some ref) = record {
    at = λ s h.
        let (result, after) =
          env.kube.retry_on_conflict (State env × Latest env r)
            (Controller.cleanup_attempt env r ref) (s, none) in
        (finish_cleanup-Keeps ref result after.1).at after.0 (record {
          holds =
              Retried-keeps (Controller.cleanup_attempt env r ref) (λ p. Q p.0.trace)
                (cleanup_attempt-keeps ref) (s, none)
                (laws.retried _ (Controller.cleanup_attempt env r ref) (s, none)) h.holds;
        });
  }
