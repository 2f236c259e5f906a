-- ===== src/Phases/Still.antt =====
-- The calls on chart sources leave the Release in memory as it is.
use nelm_operator.Base.{Option, none, some, List, Result, ok, err, String, Bool-cases, inl, inr}
use nelm_operator.Api.{Release, ChartSourceReference}
use nelm_operator.Source.{SourceObject}
use nelm_operator.World.{Env, State, Unstructured, run}
use nelm_operator.Controller
use nelm_operator.Controller.{Reconciler, Latest}
use nelm_operator.Laws.Keeps.{Keeps, OnRel, rel_rules}
use nelm_operator.Laws.Services.{IsLawful, Keeps-retry, Retried-keeps}

module _ (env : Env) (r : Reconciler) (R : Release → Type 0) where
  create_named-Keeps_rel :
      (obj : SourceObject) → Keeps (OnRel R) (Controller.create_named env r obj)
  unfolding Controller.create_named
  create_named-Keeps_rel obj = search rel_rules

  update_names-Keeps_rel :
      (names : List String) (live : Unstructured env.Json)
      → Keeps (OnRel R) (Controller.update_names env r names live)
  unfolding Controller.update_names
  update_names-Keeps_rel names live = search rel_rules

  ensure_attempt-Keeps_rel :
      (obj : SourceObject) → Keeps (OnRel R) (Controller.ensure_attempt env r obj)
  unfolding Controller.ensure_attempt
  ensure_attempt-Keeps_rel obj = search (rel_rules, create_named-Keeps_rel) depth 9

  pub ensure-Keeps_rel :
      IsLawful env
      → (obj : SourceObject) → Keeps (OnRel R) (Controller.ensure_chart_source_ref env r obj)
  unfolding Controller.ensure_chart_source_ref
  ensure-Keeps_rel laws obj =
      Keeps-retry laws (Controller.ensure_attempt env r obj) (ensure_attempt-Keeps_rel obj)

  delete_unused-Keeps_rel :
      (ref : ChartSourceReference) (live : Unstructured env.Json)
      → Keeps (OnRel R) (Controller.delete_unused env r ref live)
  unfolding Controller.delete_unused
  delete_unused-Keeps_rel ref live = search rel_rules

  note_update-keeps_rel :
      (names : List String) (latest : Latest env r)
      (out : Result (Unstructured env.Json) × State env)
      → R out.1.rel
      → R (Controller.note_update env r names latest out).1.0.rel
  unfolding Controller.note_update
  note_update-keeps_rel names latest (err e, s) h = h
  note_update-keeps_rel names latest (ok stored, s) h = h

  drop_name-keeps_rel :
      (latest : Latest env r) (out : Result (Unstructured env.Json) × State env)
      → R out.1.rel
      → R (Controller.drop_name env r latest out).1.0.rel
  unfolding Controller.drop_name
  drop_name-keeps_rel latest (err e, s) h = h
  drop_name-keeps_rel latest (ok live, s) h =
      let names = Controller.release_ref_names live.annotations in
      let rest = Controller.delete_first s.rel.name names in
      elim (Bool-cases (Controller.contains s.rel.name names)) [
        | inl listed ↦ rw listed (
            note_update-keeps_rel rest latest (Controller.update_names env r rest live s)
              ((update_names-Keeps_rel rest live).at s (record { holds = h })).holds)
        | inr unlisted ↦ rw unlisted h
      ]

  cleanup_attempt-keeps_rel :
      (ref : ChartSourceReference) (s : State env × Latest env r)
      → R s.0.rel
      → R (Controller.cleanup_attempt env r ref s).1.0.rel
  unfolding Controller.cleanup_attempt run
  cleanup_attempt-keeps_rel ref (s, latest) h = drop_name-keeps_rel latest _ h

  finish_cleanup-Keeps_rel :
      (ref : ChartSourceReference) (result : Result (Unit {0})) (latest : Latest env r)
      → Keeps (OnRel R) (Controller.finish_cleanup env r ref result latest)
  unfolding Controller.finish_cleanup
  finish_cleanup-Keeps_rel ref (err e) latest = search rel_rules
  finish_cleanup-Keeps_rel ref (ok _) none = search rel_rules
  finish_cleanup-Keeps_rel ref (ok _) (some (live, names)) =
      search (rel_rules, delete_unused-Keeps_rel)

  pub cleanup-Keeps_rel :
      IsLawful env
      → (ref : Option ChartSourceReference)
      → Keeps (OnRel R) (Controller.cleanup_chart_source_ref env r ref)
  unfolding Controller.cleanup_chart_source_ref
  cleanup-Keeps_rel laws none = record { at = λ s h. h }
  cleanup-Keeps_rel laws (some ref) = record {
    at = λ s h.
        let (result, after) =
          env.kube.retry_on_conflict (State env × Latest env r)
            (Controller.cleanup_attempt env r ref) (s, none) in
        (finish_cleanup-Keeps_rel ref result after.1).at after.0 (record {
          holds =
              Retried-keeps (Controller.cleanup_attempt env r ref) (λ p. R p.0.rel)
                (cleanup_attempt-keeps_rel ref) (s, none)
                (laws.retried _ (Controller.cleanup_attempt env r ref) (s, none)) h.holds;
        });
  }
