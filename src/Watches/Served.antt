-- ===== src/Watches/Served.antt =====
-- The index of chart sources names the source that `resolveChartRef` deploys from.
pub mod HelmChart
pub mod Phases
pub mod Resolve
use nelm_operator.Base.{
  String, ◌≡◌, refl, sym, subst, ap, ◌∙◌, Bool, true, false, ◌&&◌, ◌||◌, not, Option, none, some,
  is_some, List, [], ◌∷◌, str_eq, if◌then◌else◌, Error, wrap, failure, Result, ok, err, arith,
  Bool-cases, inl, inr,
}
use nelm_operator.Api.{
  Release, ReleaseStatus, ReleaseChart, ChartSourceRef, ChartSourceReference,
  OciRepositoryChartSource, GitRepositoryChartSource, HelmRepositoryChartSource, BucketChartSource,
}
use nelm_operator.Source.{
  SourceObject, build_helm_chart, helm_chart_for_git_repository, helm_chart_for_helm_repository,
  helm_chart_for_bucket, HelmChartObject, build_from_chart, build_oci_repository, with_hashed_name,
  object_hashed_name, SourceSpec, helm_chart_hashed_name, helm_chart_kind, oci_repository_kind,
}
use nelm_operator.World.{
  Env, Act, State, ◌>>=◌, ◌>>◌, check, pure, set_status, branch, call, helm_chart_applied,
}
use nelm_operator.Controller
use nelm_operator.Controller.{
  Reconciler, ChartRefStep, resolved, finished, Outcome, forget_sources, enter_disconnecting,
  enter_ready, is_settled_phase, same_option, enter_pending,
}
use nelm_operator.Laws.Keeps.{check-outcomes}
use nelm_operator.Watches.SourceRefs.{
  source_key_of, source_ref_keys, keys_for, chart_keys, inline_keys, oci_keys,
}

-- What the API server admits: a chart or a reference, and of a chart one source beside OCI at most.
pub record IsAdmitted (rel : Release) : Type 0 where
  pub chart_or_ref : (is_some rel.spec.chart && is_some rel.spec.chart_ref) ≡ false
  pub one_source :
      (chart : ReleaseChart)
      → rel.spec.chart ≡ some chart
      → (is_some chart.oci && (is_some chart.git || (is_some chart.repo || is_some chart.bucket)))
        ≡ false

-- `controllerutil.SetControllerReference` leaves the name.
abbrev pub KeepsNames : Env → Type 0
KeepsNames env =
    (rel : Release) (obj owned : HelmChartObject)
    → env.kube.set_controller_reference rel obj ≡ ok owned
    → owned.name ≡ obj.name

pub is_some-none : {A : Type 0} (o : Option A) → is_some o ≡ false → o ≡ none
is_some-none none h = refl
is_some-none (some a) h = ground arith

abbrev pub reference_text : ChartSourceRef → String
reference_text ref = source_key_of ref.kind ref.namespace ref.name

module _ (env : Env) (r : Reconciler) where
  abbrev pub index : Release → List String
  unfolding source_ref_keys
  index rel = source_ref_keys env.host.sha256_hex env.host.marshal_spec r.config rel

  -- A reference that is returned is the one in the index.
  pub data Serves (rel : Release) : ChartRefStep × State env → Type 0 where
    serves :
        (ref : ChartSourceRef) (s : State env)
        → index rel ≡ reference_text ref ∷ []
        → Serves rel (resolved ref, s)
    ends : (outcome : Outcome) (s : State env) → Serves rel (finished outcome, s)

  -- The same of `ensureHelmChart`.
  pub data ServesResult (rel : Release) : Result ChartSourceRef × State env → Type 0 where
    gives :
        (ref : ChartSourceRef) (s : State env)
        → index rel ≡ reference_text ref ∷ []
        → ServesResult rel (ok ref, s)
    fails : (e : Error) (s : State env) → ServesResult rel (err e, s)
