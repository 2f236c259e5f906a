-- ===== src/Source/HelmChart.antt =====
-- builders_helmchart.go of internal/source. `sha256_hex` is the hexadecimal SHA-256 of a text.
use Prim.Native.String.{slice}
use nelm_operator.Base.{String, ◌<>◌, Bool, Option, none, List, [], ◌∷◌, str_eq, if◌then◌else◌}
use nelm_operator.Api.{
  Duration, Foreign, Release, GitRepositoryChartSource, HelmRepositoryChartSource,
  BucketChartSource,
}
use nelm_operator.Api.Constants.{helm_chart_release_ref_label_name}
use nelm_operator.Source.Objects.{
  HelmChartObject, git_repository_kind, helm_repository_kind, bucket_kind, helm_chart_kind,
  reconcile_strategy_chart_version, flux_group_version,
}
use nelm_operator.Source.Repositories.{none_zero_duration}

module _ (sha256_hex : String → String) where
  -- `GetHelmChartHashedName`
  unfoldable pub helm_chart_hashed_name : String → String → String
  helm_chart_hashed_name namespace name =
      let prefix = namespace <> ("-inline-" <> name) in
      prefix <> ("-" <> slice (sha256_hex prefix) 0 12)

  -- `Verify` is dropped unless the source is a HelmRepository.
  unfoldable pub build_helm_chart :
      String
      → String
      → Release
      → String
      → String
      → String
      → String
      → Duration
      → List String
      → Bool
      → Option Foreign
      → String
      → HelmChartObject
  build_helm_chart group version rel source_kind source_name chart chart_version interval
        values_files ignore_missing verify strategy =
      record {
        api_version = group <> ("/" <> version);
        kind = helm_chart_kind;
        name = helm_chart_hashed_name rel.namespace rel.name;
        namespace = rel.namespace;
        labels = (helm_chart_release_ref_label_name, rel.name) ∷ [];
        chart = chart;
        version = chart_version;
        source_api_version = flux_group_version;
        source_kind = source_kind;
        source_name = source_name;
        interval = none_zero_duration interval rel.spec.interval;
        values_files = values_files;
        ignore_missing_values_files = ignore_missing;
        verify = if str_eq source_kind helm_repository_kind then verify else none;
        reconcile_strategy = strategy;
      }

  unfoldable pub helm_chart_for_helm_repository :
      String → String → Release → String → HelmRepositoryChartSource → HelmChartObject
  helm_chart_for_helm_repository group version rel source_name repo =
      build_helm_chart group version rel helm_repository_kind source_name repo.name repo.version
        repo.interval repo.values_files repo.ignore_missing_values_files repo.verify
        reconcile_strategy_chart_version

  unfoldable pub helm_chart_for_git_repository :
      String → String → Release → String → GitRepositoryChartSource → HelmChartObject
  helm_chart_for_git_repository group version rel source_name git =
      build_helm_chart group version rel git_repository_kind source_name git.path "" git.interval
        git.values_files git.ignore_missing_values_files none git.reconcile_strategy

  unfoldable pub helm_chart_for_bucket :
      String → String → Release → String → BucketChartSource → HelmChartObject
  helm_chart_for_bucket group version rel source_name b =
      build_helm_chart group version rel bucket_kind source_name b.path "" b.interval b.values_files
        b.ignore_missing_values_files none b.reconcile_strategy
