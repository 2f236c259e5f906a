-- ===== src/Watches/Indexed.antt =====
-- Behind the set-up, Releases are listed by the three indexes that the request functions use.
use nelm_operator.Base.{String, ◌≡◌, refl, subst, Bool, false, List, Dict, Result, ok, err, str_eq}
use nelm_operator.Api.{Release}
use nelm_operator.Config.{OperatorConfig}
use nelm_operator.Source.{SourceSpec}
use nelm_operator.Watches.{config_dependency_keys}
use nelm_operator.Watches.SourceRefs.{source_ref_keys}
use nelm_operator.Watches.Requests.{index_source_ref, index_config_map, index_secret}
use nelm_operator.Watches.Setup.{
  ControllerManager, ControllerBuilder, Listing, or_return, controller_builder, setup_with_manager,
}
use nelm_operator.Watches.Wakes.{ListsBy}

-- What controller-runtime documents of field indexes, over a store of Releases: a field that is
-- registered is listed by, and stays so while other fields are registered and the controller built.
pub record IsIndexing {World : Type 0} (mgr : ControllerManager World) (store : List Release)
    (list_by : World → Listing) : Type 0 where
  pub registers :
      (field : String) (keys : Release → List String) (w w' : World) (u : Unit {0})
      → mgr.index_field field keys w ≡ (ok u, w')
      → ListsBy keys field store (list_by w')
  pub keeps :
      (field other : String) (keys kept : Release → List String) (w w' : World) (u : Unit {0})
      → mgr.index_field field keys w ≡ (ok u, w')
      → str_eq field other ≡ false
      → ListsBy kept other store (list_by w)
      → ListsBy kept other store (list_by w')
  pub builds :
      (builder : ControllerBuilder) (field : String) (keys : Release → List String) (w w' : World)
      (u : Unit {0})
      → mgr.complete builder w ≡ (ok u, w')
      → ListsBy keys field store (list_by w)
      → ListsBy keys field store (list_by w')

-- An error is no success.
Unless : Type 0 → Result (Unit {0}) → Type 0
Unless P (ok u) = P
Unless P (err e) = Unit

-- A chain that returns no error has passed its first call.
or_return-passed :
    {World : Type 0} (rest : World → Result (Unit {0}) × World) (first : Result (Unit {0}) × World)
    (u : Unit {0}) (w' : World) (P : Type 0)
    → or_return rest first ≡ (ok u, w')
    → ((v : Unit {0}) (w : World) → first ≡ (ok v, w) → rest w ≡ (ok u, w') → P)
    → P
unfolding Unless
or_return-passed rest (ok v, w) u w' P q k = k v w refl q
or_return-passed rest (err e, w) u w' P q k = subst (λ out. Unless P out.0) q tt

-- If controller-runtime indexes as documented and `setup_with_manager` returns no error, then a
-- listing by the index of chart sources, of ConfigMaps or of Secrets gives the Releases that the
-- index function of that field has under the key.
pub setup_with_manager-lists :
    (sha256_hex : String → String) (marshal_spec : SourceSpec → Result String)
    (is_ready is_reconciling : Release → Bool) (has_revision : String → String → Bool)
    (selector_matches : Dict String → Bool) (config : OperatorConfig) {World : Type 0}
    (mgr : ControllerManager World) (store : List Release) (list_by : World → Listing)
    → IsIndexing mgr store list_by
    → (w w' : World) (u : Unit {0})
    → setup_with_manager sha256_hex marshal_spec is_ready is_reconciling has_revision
        selector_matches config mgr w
      ≡ (ok u, w')
    → ListsBy (source_ref_keys sha256_hex marshal_spec config) index_source_ref store (list_by w')
      × (ListsBy (config_dependency_keys "ConfigMap") index_config_map store (list_by w')
          × ListsBy (config_dependency_keys "Secret") index_secret store (list_by w'))
unfolding setup_with_manager
setup_with_manager-lists sha256_hex marshal_spec is_ready is_reconciling has_revision
      selector_matches config mgr store list_by laws w w' u q =
    or_return-passed _ _ u w' _ q λ v w1 q1 rest. or_return-passed _ _ u w' _ rest λ v w2 q2 rest.
      or_return-passed _ _ u w' _ rest λ v w3 q3 built.
        let sources =
          laws.registers index_source_ref (source_ref_keys sha256_hex marshal_spec config) w w1 _
            q1 in
        let maps =
          laws.registers index_config_map (config_dependency_keys "ConfigMap") w1 w2 _ q2 in
        let secrets = laws.registers index_secret (config_dependency_keys "Secret") w2 w3 _ q3 in
        let builder =
          controller_builder sha256_hex marshal_spec is_ready is_reconciling has_revision
            selector_matches config in
        (
          laws.builds builder index_source_ref _ w3 w' u built (
              laws.keeps index_secret index_source_ref _ _ w2 w3 _ q3 refl
                (laws.keeps index_config_map index_source_ref _ _ w1 w2 _ q2 refl sources)),
          (
            laws.builds builder index_config_map _ w3 w' u built
                (laws.keeps index_secret index_config_map _ _ w2 w3 _ q3 refl maps),
            laws.builds builder index_secret _ w3 w' u built secrets,
          ),
        )
