-- ===== src/Watches.antt =====
-- Which Releases a change wakes: internal/controller/release_indexer.go, and the indexes of
-- internal/controller/release_manager.go that it reads.
pub mod Keys
pub mod Digest
pub mod SourceRefs
pub mod Requests
pub mod Predicates
pub mod Served
pub mod Wakes
pub mod Setup
pub mod Indexed
pub mod Changes
use Prim.Native.Char.{code}
use Prim.Native.String as Text
use nelm_operator.Base.{
  String, ◌<>◌, Bool, true, false, ◌&&◌, ◌||◌, not, Option, none, some, List, [], ◌∷◌, ◌++◌, ◌==◌,
  push_char, str_eq, is_some, if◌then◌else◌, Result, ok, err,
}
use nelm_operator.Api.{
  Release, ReleaseChart, ChartSourceRef, ValuesReference, SecretKeyReference, ProvenanceConfig,
}
use nelm_operator.Source.{SourceSpec, SourceObject, build_from_chart, helm_chart_hashed_name}

abbrev pub key_of : String → String → String
key_of namespace name = namespace <> ("/" <> name)

-- The keys of one optional reference to a secret.
unfoldable pub secret_key_keys : String → String → Option SecretKeyReference → List String
secret_key_keys kind namespace none = []
secret_key_keys kind namespace (some ref) =
    if str_eq ref.kind kind then key_of namespace ref.name ∷ [] else []

unfoldable pub keyring_keys : String → String → Option ProvenanceConfig → List String
unfolding secret_key_keys
keyring_keys kind namespace none = []
keyring_keys kind namespace (some provenance) =
    secret_key_keys kind namespace provenance.keyring_from

-- The loops over `valuesFrom` and `secretValuesFrom`.
unfoldable pub values_keys : String → String → List ValuesReference → List String
values_keys kind namespace [] = []
values_keys kind namespace (ref ∷ refs) =
    let rest = values_keys kind namespace refs in
    if str_eq ref.kind kind then key_of namespace ref.name ∷ rest else rest

-- `configDependencyIndexerFunc`
unfoldable pub config_dependency_keys : String → Release → List String
unfolding secret_key_keys keyring_keys values_keys
config_dependency_keys kind rel =
    secret_key_keys kind rel.namespace rel.spec.secret_key_from
    ++ (keyring_keys kind rel.namespace rel.spec.provenance
        ++ (values_keys kind rel.namespace rel.spec.values_from
            ++ values_keys kind rel.namespace rel.spec.secret_values_from))

-- `strings.Contains(s, "@")` and `strings.Split(s, "@")`
unfoldable pub has_at_sign : String → Bool
has_at_sign Text.[] = false
has_at_sign (Text.◌∷◌ c s) = (code c == b'@') || has_at_sign s

unfoldable pub split_at_sign : String → List String
split_at_sign Text.[] = "" ∷ []
split_at_sign (Text.◌∷◌ c s) =
    let rest = split_at_sign s in if code c == b'@' then "" ∷ rest else push_char c rest

unfoldable pub second_of_two : List String → String
second_of_two (tag ∷ digest ∷ []) = digest
second_of_two _ = ""

-- `extractDigest`
unfoldable pub extract_digest : String → String
unfolding has_at_sign split_at_sign second_of_two
extract_digest revision =
    if has_at_sign revision then second_of_two (split_at_sign revision) else revision
