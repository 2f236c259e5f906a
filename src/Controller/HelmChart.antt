-- ===== src/Controller/HelmChart.antt =====
-- `ensureHelmChart` and `cleanupHelmChart`.
use nelm_operator.Base.{
  String, ◌<>◌, Option, none, some, if◌then◌else◌, failure, wrap, is_not_found, Result, ok, err,
}
use nelm_operator.Api.{Release, ReleaseChart, OciRepositoryChartSource, ChartSourceRef}
use nelm_operator.Source.{
  HelmChartObject, helm_chart_kind, oci_repository_kind, helm_chart_hashed_name,
  helm_chart_for_helm_repository, helm_chart_for_git_repository, helm_chart_for_bucket,
}
use nelm_operator.World.{
  Env, ObjectKey, Act, ◌>>=◌, check, pure, gets, call, wrapping, helm_chart_applied, object_deleted,
}
use nelm_operator.Controller.Returns.{Reconciler}

module _ (env : Env) (r : Reconciler) where
  abbrev helm_chart_key : String → String → ObjectKey
  helm_chart_key namespace name = record {
    group = r.config.source_api_group;
    version = r.config.source_api_version;
    kind = helm_chart_kind;
    namespace = namespace;
    name = name;
  }

  abbrev chart_source_ref : String → String → String → ChartSourceRef
  chart_source_ref kind namespace name = record {
    api_version = r.config.source_api_group <> ("/" <> r.config.source_api_version);
    kind = kind;
    name = name;
    namespace = namespace;
  }

  -- What follows the switch of `ensureHelmChart`.
  unfoldable pub apply_helm_chart : HelmChartObject → Act env (Result ChartSourceRef)
  apply_helm_chart obj = do
    rel ← gets (λ rel. rel)
    wrapping "set helm chart controller reference"
        (pure (env.kube.set_controller_reference rel obj))
        λ owned.
          wrapping
            ("apply helm chart "
              <> (owned.kind <> (" " <> (owned.namespace <> ("/" <> owned.name)))))
            (call (helm_chart_applied (helm_chart_key owned.namespace owned.name))
              (env.kube.apply_helm_chart owned))
            (λ _. pure (ok (chart_source_ref helm_chart_kind rel.namespace owned.name)))

  -- The switch of `ensureHelmChart`, in its order.
  unfoldable pub helm_chart_of : Release → String → ReleaseChart → Option HelmChartObject
  helm_chart_of rel source_name chart =
      let hash = env.host.sha256_hex in
      let group = r.config.source_api_group in
      let version = r.config.source_api_version in
      elim chart.git [
        | some git ↦ some (helm_chart_for_git_repository hash group version rel source_name git)
        | none ↦ elim chart.repo [
          | some repo ↦
              some (helm_chart_for_helm_repository hash group version rel source_name repo)
          | none ↦ elim chart.bucket [
            | some b ↦ some (helm_chart_for_bucket hash group version rel source_name b)
            | none ↦ none
          ]
        ]
      ]

  -- The rest of the switch: an OCI repository needs no HelmChart.
  unfoldable pub deploy_chart :
      Release
      → String
      → Option HelmChartObject
      → Option OciRepositoryChartSource
      → Act env (Result ChartSourceRef)
  unfolding apply_helm_chart
  deploy_chart rel source_name (some obj) oci = apply_helm_chart obj
  deploy_chart rel source_name none (some _) =
      pure (ok (chart_source_ref oci_repository_kind rel.namespace source_name))
  deploy_chart rel source_name none none = pure (
      err
        (failure "no chart source configured: exactly one of git, repo, oci or bucket must be set"))

  unfoldable pub ensure_for :
      Release → String → Option ReleaseChart → Act env (Result ChartSourceRef)
  unfolding deploy_chart
  ensure_for rel source_name none = pure (err (failure "spec.chart is not set"))
  ensure_for rel source_name (some chart) =
      deploy_chart rel source_name (helm_chart_of rel source_name chart) chart.oci

  -- `ensureHelmChart`
  unfoldable pub ensure_helm_chart : String → Act env (Result ChartSourceRef)
  unfolding ensure_for
  ensure_helm_chart source_name = do
    rel ← gets (λ rel. rel)
    ensure_for rel source_name rel.spec.chart

  -- `cleanupHelmChart`
  unfoldable pub cleanup_helm_chart : Act env (Result (Unit {0}))
  cleanup_helm_chart = do
    rel ← gets (λ rel. rel)
    let name = helm_chart_hashed_name env.host.sha256_hex rel.namespace rel.name
    let key = helm_chart_key rel.namespace name
    check (call (object_deleted key) (env.kube.delete_object key none))
        (λ e. pure (
          if is_not_found e
          then ok tt
          else err (wrap ("delete HelmChart " <> (rel.namespace <> ("/" <> name))) e)))
        (λ _. pure (ok tt))
