-- ===== src/Watches/SourceRefs.antt =====
-- The index of chart sources that `SetupWithManager` of internal/controller/release_manager.go
-- registers.
use nelm_operator.Base.{
  String, ◌<>◌, Option, none, some, List, [], ◌∷◌, str_eq, if◌then◌else◌, Result, ok, err,
}
use nelm_operator.Api.{Release, ReleaseChart, ChartSourceRef, OciRepositoryChartSource}
use nelm_operator.Config.{OperatorConfig}
use nelm_operator.Source.{
  SourceSpec, SourceObject, build_from_chart, helm_chart_hashed_name, helm_chart_kind,
}
use nelm_operator.Watches.{key_of}

-- `fmt.Sprintf("%s/%s/%s", kind, namespace, name)`
abbrev pub source_key_of : String → String → String → String
source_key_of kind namespace name = kind <> ("/" <> key_of namespace name)

module _ (sha256_hex : String → String) (marshal_spec : SourceSpec → Result String)
    (config : OperatorConfig) where
  -- The case of an OCI repository. An error is logged, and the Release is not indexed.
  unfoldable pub oci_keys : Release → Result SourceObject → List String
  oci_keys rel (err e) = []
  oci_keys rel (ok repo) = source_key_of repo.kind rel.namespace repo.name ∷ []

  -- The cases of an inline chart: an OCI repository, and any other source with its HelmChart.
  unfoldable pub inline_keys :
      Release → ReleaseChart → Option OciRepositoryChartSource → List String
  unfolding oci_keys helm_chart_hashed_name build_from_chart
  inline_keys rel chart (some oci) = oci_keys rel (
      build_from_chart sha256_hex marshal_spec config.source_api_group config.source_api_version rel
        chart)
  inline_keys rel chart none =
      source_key_of helm_chart_kind rel.namespace
        (helm_chart_hashed_name sha256_hex rel.namespace rel.name)
      ∷ []

  unfoldable pub chart_keys : Release → Option ReleaseChart → List String
  unfolding inline_keys
  chart_keys rel none = []
  chart_keys rel (some chart) = inline_keys rel chart chart.oci

  -- The case of a reference comes first.
  unfoldable pub keys_for : Release → Option ChartSourceRef → List String
  unfolding chart_keys
  keys_for rel none = chart_keys rel rel.spec.chart
  keys_for rel (some ref) =
      let namespace = if str_eq ref.namespace "" then rel.namespace else ref.namespace in
      source_key_of ref.kind namespace ref.name ∷ []

  -- The index function.
  unfoldable pub source_ref_keys : Release → List String
  unfolding keys_for
  source_ref_keys rel = keys_for rel rel.spec.chart_ref
