-- ===== src/Watches/Requests.antt =====
-- The requests for a change of a source or of a config dependency, of
-- internal/controller/release_indexer.go.
use nelm_operator.Base.{
  String, ◌<>◌, Bool, ◌&&◌, ◌||◌, Option, none, some, List, [], ◌∷◌, str_eq, if◌then◌else◌, Result,
  ok, err,
}
use nelm_operator.Api.{Release}
use nelm_operator.Source.{helm_chart_kind, oci_repository_kind}
use nelm_operator.Watches.{key_of, extract_digest}

abbrev pub index_source_ref : String
index_source_ref = ".metadata.sourceRef"

abbrev pub index_config_map : String
index_config_map = ".metadata.configMap"

abbrev pub index_secret : String
index_secret = ".metadata.secret"

-- What is read of a watched source: `artifact` is the revision of `GetArtifact()`.
pub record WatchedSource : Type 0 where
  pub namespace : String
  pub name : String
  pub artifact : Option String

-- A `client.Object` by its type.
pub data WatchedObject : Type 0 where
  helm_chart : WatchedSource → WatchedObject
  oci_repository : WatchedSource → WatchedObject
  other_object : String → String → WatchedObject

-- `client.ObjectKeyFromObject`
abbrev pub object_key : WatchedObject → String
object_key (WatchedObject.helm_chart hc) = key_of hc.namespace hc.name
object_key (WatchedObject.oci_repository repo) = key_of repo.namespace repo.name
object_key (WatchedObject.other_object namespace name) = key_of namespace name

-- A `reconcile.Request`: the namespace and the name of a Release.
abbrev pub Request : Type 0
Request = String × String

abbrev pub request_of : Release → Request
request_of rel = (rel.namespace, rel.name)

-- The conditions of Flux, its comparison of revisions, and `client.List` by the key of an index.
module _ (is_ready is_reconciling : Release → Bool) (has_revision : String → String → Bool)
    (list_by : String → String → Result (List Release)) where
  -- `isReadyOrReconciling`
  abbrev pub is_ready_or_reconciling : Release → Bool
  is_ready_or_reconciling rel = is_ready rel || is_reconciling rel

  -- The loop of `requestsForHelmChartChange`.
  unfoldable pub helm_chart_loop : String → List Release → List Request
  helm_chart_loop revision [] = []
  helm_chart_loop revision (rel ∷ listed) =
      let rest = helm_chart_loop revision listed in
      if is_ready_or_reconciling rel
        && has_revision revision rel.status.last_attempted_artifact_revision
      then rest
      else request_of rel ∷ rest

  -- The loop of `requestsForOCIRepositoryChange`.
  unfoldable pub oci_repository_loop : String → List Release → List Request
  unfolding extract_digest
  oci_repository_loop revision [] = []
  oci_repository_loop revision (rel ∷ listed) =
      let rest = oci_repository_loop revision listed in
      let digest = extract_digest revision in
      if str_eq digest ""
      then rest
      else if is_ready_or_reconciling rel && str_eq digest rel.status.last_attempted_artifact_digest
      then rest
      else request_of rel ∷ rest

  -- The loop of `requestsForConfigDependency`.
  unfoldable pub config_dependency_loop : List Release → List Request
  config_dependency_loop [] = []
  config_dependency_loop (rel ∷ listed) = request_of rel ∷ config_dependency_loop listed

  -- A failed listing is logged, and wakes nobody.
  abbrev pub over_listed : (List Release → List Request) → Result (List Release) → List Request
  over_listed loop (err e) = []
  over_listed loop (ok listed) = loop listed

  -- A source without an artifact wakes nobody.
  abbrev pub with_artifact : Option String → (String → List Request) → List Request
  with_artifact none requests = []
  with_artifact (some revision) requests = requests revision

  -- `requestsForHelmChartChange`
  unfoldable pub requests_for_helm_chart_change : WatchedObject → List Request
  unfolding helm_chart_loop
  requests_for_helm_chart_change (WatchedObject.helm_chart hc) =
      with_artifact hc.artifact λ revision.
        over_listed (helm_chart_loop revision)
          (list_by index_source_ref (helm_chart_kind <> ("/" <> key_of hc.namespace hc.name)))
  requests_for_helm_chart_change _ = []

  -- `requestsForOCIRepositoryChange`
  unfoldable pub requests_for_oci_repository_change : WatchedObject → List Request
  unfolding oci_repository_loop
  requests_for_oci_repository_change (WatchedObject.oci_repository repo) =
      with_artifact repo.artifact λ revision.
        over_listed (oci_repository_loop revision) (
          list_by index_source_ref
            (oci_repository_kind <> ("/" <> key_of repo.namespace repo.name)))
  requests_for_oci_repository_change _ = []

  -- `requestsForConfigDependency`
  unfoldable pub requests_for_config_dependency : String → WatchedObject → List Request
  unfolding config_dependency_loop
  requests_for_config_dependency index o =
      over_listed config_dependency_loop (list_by index (object_key o))
