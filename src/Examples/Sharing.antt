-- ===== src/Examples/Sharing.antt =====
-- The one chart source of the small cluster, taken up by two Releases and let go by one.
use nelm_operator.Base.{
  ◌≡◌, refl, sym, ap, ◌∙◌, Option, none, some, [], ◌∷◌, not_found, ok, err, String, join_comma,
  split_comma,
}
use nelm_operator.World.{State, Unstructured, ObjectKey, ◌>>=◌}
use nelm_operator.Controller
use nelm_operator.Controller.{source_key}
use nelm_operator.Registry.Server.{Server, Reads, finds, misses, writes, deletes}
use nelm_operator.Registry.Replay.{takes, drops}
use nelm_operator.Registry.Runs.{History, untouched, ensured, cleaned}
use nelm_operator.Examples.Cluster.{Cluster, cluster, kube, retry}
use nelm_operator.Examples.Releases.{config, reconciler, release, source_object}

-- The source under the key that it is asked for by.
abbrev pub keyed : ObjectKey → Option (Unstructured (Unit {0})) → Option (Unstructured (Unit {0}))
keyed key none = none
keyed key (some live) = some (record live { key = key })

pub keyed-Reads :
    (key : ObjectKey) (w : Cluster) (before : Option (Unstructured (Unit {0})))
    → keyed key w.source ≡ before
    → Reads (λ v. keyed key v.source) key before (kube.get_object key w)
keyed-Reads key w before h = after w.source refl
  where
    after :
        (o : Option (Unstructured (Unit {0})))
        → w.source ≡ o
        → Reads
            (λ v. keyed key v.source)
            key
            before
            (
              elim o [ none ↦ err (not_found "gone") | some live ↦ ok (record live { key = key }) ],
              w,
            )
    after none q = misses (not_found "gone") w refl (sym h ∙ ap (keyed key) q) h
    after (some live) q = finds (record live { key = key }) w refl (sym h ∙ ap (keyed key) q) h

abbrev pub cluster_server : (key : ObjectKey) → Server cluster key
cluster_server key = record {
  held = λ w. keyed key w.source;
  reads = keyed-Reads key;
  creates = λ obj w before at h. writes tt _ _ refl refl;
  updates = λ live w before at h. writes live _ _ refl refl;
  removes = λ conditions w before h. deletes tt _ refl;
}

abbrev pub empty_cluster : Cluster
empty_cluster = record { release = release; source = none }

-- A call for a Release of this name.
abbrev pub call_of : String → Cluster → State cluster
call_of name w = record { rel = record release { name = name }; world = w; trace = [] }

-- The cluster with the source in use by the listed Releases.
abbrev pub shared_by : String → Cluster
shared_by names = record {
  release = release;
  source = some (record {
    key = source_key config source_object;
    annotations = some (("nelm.werf.io/release-refs", names) ∷ []);
    resource_version = "1";
    uid = "u";
    content = tt;
  });
}

-- Two Releases take the source, and the first lets it go.
pub two_users :
    History cluster reconciler source_object empty_cluster
      (shared_by "blog")
      (drops "shop" ∷ takes "blog" ∷ takes "shop" ∷ [])
unfolding Controller.ensure_chart_source_ref Controller.cleanup_chart_source_ref
    Controller.update_names Controller.note_update Controller.ensure_attempt
    Controller.delete_unused ◌>>=◌ retry join_comma split_comma Controller.expected_reference
two_users =
    cleaned (call_of "shop" (shared_by "shop,blog")) _ tt _
      (ensured (call_of "blog" (shared_by "shop")) _ tt _
        (ensured (call_of "shop" empty_cluster) _ tt _ untouched
          (record { not_empty = refl; no_comma = refl }) refl)
        (record { not_empty = refl; no_comma = refl }) refl)
      refl

pub no_users :
    History cluster reconciler source_object empty_cluster empty_cluster
      (drops "shop" ∷ takes "shop" ∷ [])
unfolding Controller.ensure_chart_source_ref Controller.cleanup_chart_source_ref
    Controller.update_names Controller.note_update Controller.ensure_attempt
    Controller.delete_unused ◌>>=◌ retry split_comma Controller.expected_reference join_comma
no_users =
    cleaned (call_of "shop" (shared_by "shop")) _ tt _
      (ensured (call_of "shop" empty_cluster) _ tt _ untouched
        (record { not_empty = refl; no_comma = refl }) refl)
      refl
