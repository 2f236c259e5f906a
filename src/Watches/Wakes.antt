-- ===== src/Watches/Wakes.antt =====
-- A change wakes the Releases that it concerns.
use mathlib.Core.List.{Memᴰ}
use nelm_operator.Base.{
  String, ◌<>◌, ◌≡◌, sym, subst, ap, Bool, true, false, ◌&&◌, some, List, [], ◌∷◌, str_eq, eq_refl,
  Bool-cases, inl, inr, if◌then◌else◌, Result, ok, arith,
}
use nelm_operator.Api.{Release, ChartSourceRef}
use nelm_operator.Source.{helm_chart_kind, oci_repository_kind}
use nelm_operator.World.{Env, State}
use nelm_operator.Controller
use nelm_operator.Controller.{Reconciler, resolved, contains}
use nelm_operator.Watches.{key_of, config_dependency_keys, extract_digest}
use nelm_operator.Watches.Keys.{DependsOn, config_dependency_keys-contains}
use nelm_operator.Watches.Requests.{
  WatchedSource, WatchedObject, request_of, index_source_ref, is_ready_or_reconciling,
  helm_chart_loop, oci_repository_loop, config_dependency_loop, requests_for_helm_chart_change,
  requests_for_oci_repository_change, requests_for_config_dependency,
}
use nelm_operator.Watches.Served.{IsAdmitted, KeepsNames, reference_text, index}
use nelm_operator.Watches.Served.Resolve.{source_ref_keys-resolve_chart_ref}

-- The Releases of a store that an index function has under a key.
unfoldable pub matching : (Release → List String) → String → List Release → List Release
matching keys key [] = []
matching keys key (rel ∷ store) =
    let rest = matching keys key store in if contains key (keys rel) then rel ∷ rest else rest

-- `client.List` with a field of an index gives the Releases of that key.
pub record ListsBy (keys : Release → List String) (field : String) (store : List Release)
    (list_by : String → String → Result (List Release)) : Type 0 where
  pub lists : (key : String) → list_by field key ≡ ok (matching keys key store)

Mem-matching :
    (keys : Release → List String) (key : String) (rel : Release) (store : List Release)
    → Memᴰ rel store
    → contains key (keys rel) ≡ true
    → Memᴰ rel (matching keys key store)
unfolding matching
Mem-matching keys key rel [] m h = elim m [ ]
Mem-matching keys key rel (other ∷ store) (Memᴰ.head p) h =
    rw (subst (λ x. contains key (keys x) ≡ true) p h) (Memᴰ.head p)
Mem-matching keys key rel (other ∷ store) (Memᴰ.tail m) h =
    elim (Bool-cases (contains key (keys other))) [
      | inl listed ↦ rw listed (Memᴰ.tail (Mem-matching keys key rel store m h))
      | inr left ↦ rw left (Mem-matching keys key rel store m h)
    ]

module _ (is_ready is_reconciling : Release → Bool) (has_revision : String → String → Bool)
    (list_by : String → String → Result (List Release)) where
  -- The Release is settled on the revision.
  abbrev pub is_current : String → Release → Bool
  is_current revision rel =
      is_ready_or_reconciling is_ready is_reconciling has_revision list_by rel
      && has_revision revision rel.status.last_attempted_artifact_revision

  Mem-helm_chart_loop :
      (revision : String) (rel : Release) (listed : List Release)
      → Memᴰ rel listed
      → is_current revision rel ≡ false
      → Memᴰ
          (request_of rel)
          (helm_chart_loop is_ready is_reconciling has_revision list_by revision listed)
  unfolding helm_chart_loop
  Mem-helm_chart_loop revision rel [] m h = elim m [ ]
  Mem-helm_chart_loop revision rel (other ∷ listed) (Memᴰ.head p) h =
      rw (subst (λ x. is_current revision x ≡ false) p h) (Memᴰ.head (ap request_of p))
  Mem-helm_chart_loop revision rel (other ∷ listed) (Memᴰ.tail m) h =
      elim (Bool-cases (is_current revision other)) [
        | inl current ↦ rw current (Mem-helm_chart_loop revision rel listed m h)
        | inr stale ↦ rw stale (Memᴰ.tail (Mem-helm_chart_loop revision rel listed m h))
      ]

  Mem-config_dependency_loop :
      (rel : Release) (listed : List Release)
      → Memᴰ rel listed
      → Memᴰ
          (request_of rel)
          (config_dependency_loop is_ready is_reconciling has_revision list_by listed)
  unfolding config_dependency_loop
  Mem-config_dependency_loop rel [] m = elim m [ ]
  Mem-config_dependency_loop rel (other ∷ listed) (Memᴰ.head p) = Memᴰ.head (ap request_of p)
  Mem-config_dependency_loop rel (other ∷ listed) (Memᴰ.tail m) =
      Memᴰ.tail (Mem-config_dependency_loop rel listed m)

  -- The Release is settled on the digest.
  abbrev pub is_current_digest : String → Release → Bool
  is_current_digest digest rel =
      is_ready_or_reconciling is_ready is_reconciling has_revision list_by rel
      && str_eq digest rel.status.last_attempted_artifact_digest

  Mem-oci_repository_loop :
      (revision : String) (rel : Release) (listed : List Release)
      → Memᴰ rel listed
      → str_eq (extract_digest revision) "" ≡ false
      → is_current_digest (extract_digest revision) rel ≡ false
      → Memᴰ
          (request_of rel)
          (oci_repository_loop is_ready is_reconciling has_revision list_by revision listed)
  unfolding oci_repository_loop
  Mem-oci_repository_loop revision rel [] m named h = elim m [ ]
  Mem-oci_repository_loop revision rel (other ∷ listed) (Memᴰ.head p) named h =
      rw (named, subst (λ x. is_current_digest (extract_digest revision) x ≡ false) p h)
        (Memᴰ.head (ap request_of p))
  Mem-oci_repository_loop revision rel (other ∷ listed) (Memᴰ.tail m) named h =
      elim (Bool-cases (is_current_digest (extract_digest revision) other)) [
        | inl current ↦ rw (named, current) (Mem-oci_repository_loop revision rel listed m named h)
        | inr stale ↦
            rw (named, stale) (Memᴰ.tail (Mem-oci_repository_loop revision rel listed m named h))
      ]

-- A Release is listed by the reference that it is deployed from.
served-listed :
    (env : Env) (r : Reconciler) (store : List Release)
    (list_by : String → String → Result (List Release))
    → ListsBy (index env r) index_source_ref store list_by
    → KeepsNames env
    → (s s' : State env) (ref : ChartSourceRef) (kind : String) (source : WatchedSource)
    → IsAdmitted s.rel
    → Controller.resolve_chart_ref env r s ≡ (resolved ref, s')
    → ref.kind ≡ kind
    → (ref.namespace ≡ source.namespace) × (ref.name ≡ source.name)
    → contains (kind <> ("/" <> key_of source.namespace source.name)) (index env r s.rel) ≡ true
unfolding contains
served-listed env r store list_by listing keeps s s' ref kind source admitted q same at =
    rw
      (
        source_ref_keys-resolve_chart_ref env r keeps s admitted ref s' q,
        sym same,
        sym at.0,
        sym at.1,
      )
      (ground (arith, eq_refl (reference_text ref)))

-- Say that the client lists the Releases of a store by the index of chart sources, that setting an
-- owner leaves names, and that `resolve_chart_ref` of an admitted Release in the store returned the
-- reference to a HelmChart. Then a change of that HelmChart that has an artifact requests the
-- Release, unless the Release is ready or reconciling and its last attempt was at the artifact's
-- revision.
pub requests_for_helm_chart_change-wakes :
    (env : Env) (r : Reconciler) (is_ready is_reconciling : Release → Bool)
    (has_revision : String → String → Bool) (list_by : String → String → Result (List Release))
    (store : List Release)
    → ListsBy (index env r) index_source_ref store list_by
    → KeepsNames env
    → (s s' : State env) (ref : ChartSourceRef) (hc : WatchedSource) (revision : String)
    → Memᴰ s.rel store
    → IsAdmitted s.rel
    → Controller.resolve_chart_ref env r s ≡ (resolved ref, s')
    → ref.kind ≡ helm_chart_kind
    → (ref.namespace ≡ hc.namespace) × (ref.name ≡ hc.name)
    → hc.artifact ≡ some revision
    → is_current is_ready is_reconciling has_revision list_by revision s.rel ≡ false
    → Memᴰ (request_of s.rel) (
        requests_for_helm_chart_change is_ready is_reconciling has_revision list_by
          (WatchedObject.helm_chart hc))
unfolding requests_for_helm_chart_change
requests_for_helm_chart_change-wakes env r is_ready is_reconciling has_revision list_by store
      listing keeps s s' ref hc revision stored admitted q kind at artifact stale =
    rw (artifact, listing.lists (helm_chart_kind <> ("/" <> key_of hc.namespace hc.name)))
      (Mem-helm_chart_loop is_ready is_reconciling has_revision list_by revision s.rel _
        (Mem-matching (index env r) _ s.rel store stored (
          served-listed env r store list_by listing keeps s s' ref helm_chart_kind hc admitted q
            kind at))
        stale)

-- The same of an OCIRepository with an artifact whose revision has a digest, unless the Release is
-- ready or reconciling and its last attempt was at that digest.
pub requests_for_oci_repository_change-wakes :
    (env : Env) (r : Reconciler) (is_ready is_reconciling : Release → Bool)
    (has_revision : String → String → Bool) (list_by : String → String → Result (List Release))
    (store : List Release)
    → ListsBy (index env r) index_source_ref store list_by
    → KeepsNames env
    → (s s' : State env) (ref : ChartSourceRef) (repo : WatchedSource) (revision : String)
    → Memᴰ s.rel store
    → IsAdmitted s.rel
    → Controller.resolve_chart_ref env r s ≡ (resolved ref, s')
    → ref.kind ≡ oci_repository_kind
    → (ref.namespace ≡ repo.namespace) × (ref.name ≡ repo.name)
    → repo.artifact ≡ some revision
    → str_eq (extract_digest revision) "" ≡ false
    → is_current_digest is_ready is_reconciling has_revision list_by (extract_digest revision) s.rel
      ≡ false
    → Memᴰ (request_of s.rel) (
        requests_for_oci_repository_change is_ready is_reconciling has_revision list_by
          (WatchedObject.oci_repository repo))
unfolding requests_for_oci_repository_change
requests_for_oci_repository_change-wakes env r is_ready is_reconciling has_revision list_by store
      listing keeps s s' ref repo revision stored admitted q kind at artifact named stale =
    rw (artifact, listing.lists (oci_repository_kind <> ("/" <> key_of repo.namespace repo.name)))
      (Mem-oci_repository_loop is_ready is_reconciling has_revision list_by revision s.rel _
        (Mem-matching (index env r) _ s.rel store stored (
          served-listed env r store list_by listing keeps s s' ref oci_repository_kind repo admitted
            q kind at))
        named stale)

-- Say that the client lists the Releases of a store by the index of a kind of config dependencies.
-- Then a change of an object requests every Release of the store in the object's namespace that
-- draws on an object of that kind and name.
pub requests_for_config_dependency-wakes :
    (is_ready is_reconciling : Release → Bool) (has_revision : String → String → Bool)
    (list_by : String → String → Result (List Release)) (store : List Release) (kind field : String)
    → ListsBy (config_dependency_keys kind) field store list_by
    → (rel : Release) (name : String) → Memᴰ rel store
    → DependsOn kind name rel
    → Memᴰ (request_of rel) (
        requests_for_config_dependency is_ready is_reconciling has_revision list_by field
          (WatchedObject.other_object rel.namespace name))
unfolding requests_for_config_dependency
requests_for_config_dependency-wakes is_ready is_reconciling has_revision list_by store kind field
      listing rel name stored drawn =
    rw (listing.lists (key_of rel.namespace name)) (
      Mem-config_dependency_loop is_ready is_reconciling has_revision list_by rel _ (
        Mem-matching (config_dependency_keys kind) _ rel store stored
          (config_dependency_keys-contains kind name rel drawn)))
