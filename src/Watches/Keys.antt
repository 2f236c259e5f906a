-- ===== src/Watches/Keys.antt =====
-- Every ConfigMap and Secret that a Release draws on is in its index.
use nelm_operator.Base.{
  String, ◌≡◌, refl, true, some, List, ◌∷◌, str_eq, eq_refl, arith, subst, Bool-cases, inl, inr,
}
use nelm_operator.Api.{Release, ValuesReference, SecretKeyReference, ProvenanceConfig}
use nelm_operator.Membership.{contains-append_left, contains-append_right}
use nelm_operator.Controller.{contains}
use nelm_operator.Watches.{
  key_of, secret_key_keys, keyring_keys, values_keys, config_dependency_keys,
}

-- A reference of the list has the kind and the name.
pub data Refers (kind name : String) : List ValuesReference → Type 0 where
  first :
      (ref : ValuesReference) (refs : List ValuesReference)
      → ref.kind ≡ kind
      → ref.name ≡ name
      → Refers kind name (ref ∷ refs)
  later :
      (ref : ValuesReference) (refs : List ValuesReference)
      → Refers kind name refs
      → Refers kind name (ref ∷ refs)

-- The Release draws on the object of the kind and the name.
pub data DependsOn (kind name : String) (rel : Release) : Type 0 where
  values : Refers kind name rel.spec.values_from → DependsOn kind name rel
  secret_values : Refers kind name rel.spec.secret_values_from → DependsOn kind name rel
  secret_key :
      (ref : SecretKeyReference)
      → rel.spec.secret_key_from ≡ some ref
      → ref.kind ≡ kind
      → ref.name ≡ name
      → DependsOn kind name rel
  keyring :
      (provenance : ProvenanceConfig) (ref : SecretKeyReference)
      → rel.spec.provenance ≡ some provenance
      → provenance.keyring_from ≡ some ref
      → ref.kind ≡ kind
      → ref.name ≡ name
      → DependsOn kind name rel

values_keys-contains :
    (kind name namespace : String) (refs : List ValuesReference)
    → Refers kind name refs
    → contains (key_of namespace name) (values_keys kind namespace refs) ≡ true
unfolding values_keys contains
values_keys-contains kind name namespace _ (first ref refs k n) =
    rw (k, n) (rw (eq_refl kind, eq_refl (key_of namespace name)) refl)
values_keys-contains kind name namespace _ (later ref refs h) =
    elim (Bool-cases (str_eq ref.kind kind)) [
      | inl same ↦ rw same (ground (arith, values_keys-contains kind name namespace refs h))
      | inr other ↦ rw other (values_keys-contains kind name namespace refs h)
    ]

secret_key_keys-contains :
    (kind namespace : String) (ref : SecretKeyReference)
    → ref.kind ≡ kind
    → contains (key_of namespace ref.name) (secret_key_keys kind namespace (some ref)) ≡ true
unfolding secret_key_keys contains
secret_key_keys-contains kind namespace ref k =
    rw k (rw (eq_refl kind, eq_refl (key_of namespace ref.name)) refl)

pub config_dependency_keys-contains :
    (kind name : String) (rel : Release)
    → DependsOn kind name rel
    → contains (key_of rel.namespace name) (config_dependency_keys kind rel) ≡ true
unfolding config_dependency_keys keyring_keys
config_dependency_keys-contains kind name rel (values h) =
    contains-append_right _ (secret_key_keys kind rel.namespace rel.spec.secret_key_from) _ (
      contains-append_right _ (keyring_keys kind rel.namespace rel.spec.provenance) _
        (contains-append_left _ _ _ (values_keys-contains kind name rel.namespace _ h)))
config_dependency_keys-contains kind name rel (secret_values h) =
    contains-append_right _ (secret_key_keys kind rel.namespace rel.spec.secret_key_from) _ (
      contains-append_right _ (keyring_keys kind rel.namespace rel.spec.provenance) _ (
        contains-append_right _ (values_keys kind rel.namespace rel.spec.values_from) _
          (values_keys-contains kind name rel.namespace _ h)))
config_dependency_keys-contains kind name rel (secret_key ref q k n) = contains-append_left _ _ _ (
    subst
      (λ x.
        contains (key_of rel.namespace x)
          (secret_key_keys kind rel.namespace rel.spec.secret_key_from)
        ≡ true)
      n (rw q (secret_key_keys-contains kind rel.namespace ref k)))
config_dependency_keys-contains kind name rel (keyring provenance ref q q' k n) =
    contains-append_right _ (secret_key_keys kind rel.namespace rel.spec.secret_key_from) _ (
      contains-append_left _ _ _ (
        subst
          (λ x.
            contains (key_of rel.namespace x) (keyring_keys kind rel.namespace rel.spec.provenance)
            ≡ true)
          n (rw (q, q') (secret_key_keys-contains kind rel.namespace ref k))))
