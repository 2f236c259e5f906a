-- ===== src/Examples/WatchingTests.antt =====
-- The theorems on watches and on the start of the program at work.
use nelm_operator.Base.{
  Bool, Option, ok, String, ◌≡◌, ◌↔◌, refl, true, false, some, [], ◌∷◌, str_eq,
}
use nelm_operator.Api.{Release}
use nelm_operator.Watches.{config_dependency_keys, extract_digest}
use nelm_operator.Watches.Keys.{DependsOn, Refers}
use nelm_operator.Examples.Cluster.{cluster, host}
use nelm_operator.Watches.Requests.{
  WatchedObject, index_source_ref, index_secret, index_config_map, requests_for_helm_chart_change,
  request_of, requests_for_oci_repository_change, requests_for_config_dependency,
}
use nelm_operator.Watches.Served.{reference_text, index}
use nelm_operator.Watches.Served.Resolve.{source_ref_keys-resolve_chart_ref}
use nelm_operator.Watches.Wakes.{
  ListsBy, requests_for_helm_chart_change-wakes, requests_for_oci_repository_change-wakes,
  requests_for_config_dependency-wakes, matching,
}
use nelm_operator.Examples.Watching.{
  oci_release, filled, filled_state, release-IsAdmitted, oci_release-IsAdmitted, resolved_release,
  resolved_oci_release, cluster-KeepsNames, store, list_by, list_by-lists, source_at,
}
use nelm_operator.Watches.SourceRefs.{source_ref_keys}
use nelm_operator.Watches.Setup.{setup_with_manager}
use nelm_operator.Watches.Indexed.{setup_with_manager-lists}
use nelm_operator.Examples.Watching.{Registered, look_up, manager, manager-IsIndexing}
use mathlib.Core.List.{Memᴰ}
use nelm_operator.Startup.Main.{main, returned}
use nelm_operator.Startup.Exits.{Serves, main_iff}
use nelm_operator.Examples.Serving.{program_with}
use nelm_operator.Examples.Releases.{config, reconciler, release, start_with}
use nelm_operator.Examples.Tests.{fed_release}

abbrev revision_of : Option (Option String) → Option (Option String)
revision_of source = source

abbrev always_ready : Option (Option String) → Option Bool
always_ready source = some true

source_ref_keys-resolve_chart_ref_example :
    index cluster reconciler release ≡ reference_text (filled "HelmChart") ∷ []
source_ref_keys-resolve_chart_ref_example =
    source_ref_keys-resolve_chart_ref cluster reconciler cluster-KeepsNames (start_with release)
      release-IsAdmitted (filled "HelmChart") (filled_state release "HelmChart") resolved_release

abbrev never : Release → Bool
never rel = false

requests_for_helm_chart_change-wakes_example : Memᴰ (request_of release) (
    requests_for_helm_chart_change never never str_eq
      (list_by (index cluster reconciler))
      (WatchedObject.helm_chart (source_at "2.0.0")))
requests_for_helm_chart_change-wakes_example =
    requests_for_helm_chart_change-wakes cluster reconciler never never str_eq
      (list_by (index cluster reconciler)) store
      (list_by-lists (index cluster reconciler) index_source_ref) cluster-KeepsNames
      (start_with release) (filled_state release "HelmChart") (filled "HelmChart")
      (source_at "2.0.0") "2.0.0" (Memᴰ.head refl) release-IsAdmitted resolved_release refl
      (refl, refl) refl refl

requests_for_oci_repository_change-wakes_example : Memᴰ (request_of oci_release) (
    requests_for_oci_repository_change never never str_eq
      (list_by (index cluster reconciler))
      (WatchedObject.oci_repository (source_at "2.0.0@sha256:ab")))
unfolding extract_digest
requests_for_oci_repository_change-wakes_example =
    requests_for_oci_repository_change-wakes cluster reconciler never never str_eq
      (list_by (index cluster reconciler)) store
      (list_by-lists (index cluster reconciler) index_source_ref) cluster-KeepsNames
      (start_with oci_release) (filled_state oci_release "OCIRepository") (filled "OCIRepository")
      (source_at "2.0.0@sha256:ab") "2.0.0@sha256:ab" (Memᴰ.tail (Memᴰ.head refl))
      oci_release-IsAdmitted resolved_oci_release refl (refl, refl) refl refl refl

requests_for_config_dependency-wakes_example : Memᴰ (request_of fed_release) (
    requests_for_config_dependency never never str_eq
      (λ field key. ok (matching (config_dependency_keys "Secret") key (fed_release ∷ [])))
      index_secret
      (WatchedObject.other_object "prod" "extra"))
requests_for_config_dependency-wakes_example =
    requests_for_config_dependency-wakes never never str_eq
      (λ field key. ok (matching (config_dependency_keys "Secret") key (fed_release ∷ [])))
      (fed_release ∷ []) "Secret" index_secret (record { lists = λ key. refl }) fed_release "extra"
      (Memᴰ.head refl) (DependsOn.values (Refers.later _ _ (Refers.first _ _ refl refl)))

abbrev registered : Registered
registered =
    (index_secret, config_dependency_keys "Secret")
    ∷ (index_config_map, config_dependency_keys "ConfigMap")
    ∷ (index_source_ref, source_ref_keys host.sha256_hex host.marshal_spec config)
    ∷ []

setup_with_manager-lists_example :
    ListsBy
      (source_ref_keys host.sha256_hex host.marshal_spec config)
      index_source_ref
      store
      (look_up store registered)
    × (ListsBy
          (config_dependency_keys "ConfigMap")
          index_config_map
          store
          (look_up store registered)
        × ListsBy (config_dependency_keys "Secret") index_secret store (look_up store registered))
unfolding setup_with_manager
setup_with_manager-lists_example =
    setup_with_manager-lists host.sha256_hex host.marshal_spec never never str_eq (λ labels. true)
      config manager store (look_up store) (manager-IsIndexing store) [] registered tt refl

main_iff_example :
    (main host.sha256_hex host.marshal_spec never never str_eq (program_with (λ flags. flags)) []
      ≡ (returned, registered))
    ↔ Serves host.sha256_hex host.marshal_spec never never str_eq
        (program_with (λ flags. flags))
        []
        registered
main_iff_example =
    main_iff host.sha256_hex host.marshal_spec never never str_eq (program_with (λ flags. flags)) []
      registered
