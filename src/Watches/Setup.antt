-- ===== src/Watches/Setup.antt =====
-- `SetupWithManager` of internal/controller/release_manager.go.
use nelm_operator.Base.{String, ℤ, Bool, true, false, List, [], ◌∷◌, Dict, Result, ok, err}
use nelm_operator.Api.{Release}
use nelm_operator.Config.{OperatorConfig}
use nelm_operator.Source.{SourceSpec}
use nelm_operator.Watches.{config_dependency_keys}
use nelm_operator.Watches.SourceRefs.{source_ref_keys}
use nelm_operator.Watches.Requests.{
  WatchedObject, Request, index_source_ref, index_config_map, index_secret,
  requests_for_helm_chart_change, requests_for_oci_repository_change,
  requests_for_config_dependency,
}

-- The predicates by name; the last is `predicate.NewPredicateFuncs` of a test on labels.
pub data EventFilter : Type 0 where
  generation_changed : EventFilter
  source_revision_change : EventFilter
  resource_version_changed : EventFilter
  labels_match : (Dict String → Bool) → EventFilter

pub data WatchedType : Type 0 where
  helm_charts : WatchedType
  oci_repositories : WatchedType
  config_maps : WatchedType
  secrets : WatchedType

-- `client.List` by the key of an index, at the time of an event.
abbrev pub Listing : Type 0
Listing = String → String → Result (List Release)

-- `Watches` and `WatchesMetadata` with the map function and the predicates.
pub record Watch : Type 0 where
  pub type : WatchedType
  pub metadata_only : Bool
  pub requests : Listing → WatchedObject → List Request
  pub filters : List EventFilter

-- What is given to `ctrl.NewControllerManagedBy`.
pub record ControllerBuilder : Type 0 where
  pub release_filters : List EventFilter
  pub max_concurrent_reconciles : ℤ
  pub watches : List Watch
  pub name : String

-- `mgr.GetFieldIndexer().IndexField` on Releases, and `Complete`.
pub record ControllerManager (World : Type 0) : Type 0 where
  pub index_field : String → (Release → List String) → World → Result (Unit {0}) × World
  pub complete : ControllerBuilder → World → Result (Unit {0}) × World

-- `if err := …; err != nil { return err }`
abbrev pub or_return :
    {World : Type 0}
    → (World → Result (Unit {0}) × World)
    → Result (Unit {0}) × World
    → Result (Unit {0}) × World
or_return rest (err e, w) = (err e, w)
or_return rest (ok u, w) = rest w

module _ (sha256_hex : String → String) (marshal_spec : SourceSpec → Result String)
    (is_ready is_reconciling : Release → Bool) (has_revision : String → String → Bool)
    (selector_matches : Dict String → Bool) (config : OperatorConfig) where
  abbrev pub controller_builder : ControllerBuilder
  controller_builder = record {
    release_filters = EventFilter.generation_changed ∷ [];
    max_concurrent_reconciles = config.max_concurrent_reconciles;
    watches =
        record {
          type = WatchedType.helm_charts;
          metadata_only = false;
          requests = requests_for_helm_chart_change is_ready is_reconciling has_revision;
          filters = EventFilter.source_revision_change ∷ [];
        }
        ∷ record {
          type = WatchedType.oci_repositories;
          metadata_only = false;
          requests = requests_for_oci_repository_change is_ready is_reconciling has_revision;
          filters = EventFilter.source_revision_change ∷ [];
        }
        ∷ record {
          type = WatchedType.config_maps;
          metadata_only = true;
          requests = λ list_by.
              requests_for_config_dependency is_ready is_reconciling has_revision list_by
                index_config_map;
          filters =
              EventFilter.resource_version_changed ∷ EventFilter.labels_match selector_matches ∷ [];
        }
        ∷ record {
          type = WatchedType.secrets;
          metadata_only = true;
          requests = λ list_by.
              requests_for_config_dependency is_ready is_reconciling has_revision list_by
                index_secret;
          filters =
              EventFilter.resource_version_changed ∷ EventFilter.labels_match selector_matches ∷ [];
        }
        ∷ [];
    name = "release";
  }

  -- `SetupWithManager`
  unfoldable pub setup_with_manager :
      {World : Type 0} → ControllerManager World → World → Result (Unit {0}) × World
  setup_with_manager mgr w =
      or_return
        (λ w.
          or_return
            (λ w.
              or_return (mgr.complete controller_builder)
                (mgr.index_field index_secret (config_dependency_keys "Secret") w))
            (mgr.index_field index_config_map (config_dependency_keys "ConfigMap") w))
        (mgr.index_field index_source_ref (source_ref_keys sha256_hex marshal_spec config) w)
