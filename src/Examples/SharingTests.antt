-- ===== src/Examples/SharingTests.antt =====
-- The theorems on shared chart sources at work on the small cluster.
use nelm_operator.Base.{refl, some, split_comma}
use nelm_operator.Controller
use nelm_operator.Controller.{
  backoff, contains, release_ref_names, with_names, detect_foreign_change, enter_disconnecting,
  add_finalizer, project, is_owned, source_key, expected_reference, same_option, same_reference,
  remove_finalizer,
}
use nelm_operator.Examples.Cluster.{cluster}
use nelm_operator.Examples.Lawful.{cluster-IsLawful}
use nelm_operator.Registry.Stranded.{IsHaunted, cleanup_chart_source_ref-IsHaunted}
use nelm_operator.Registry.Runs.{names_held}
use nelm_operator.Examples.Sharing.{cluster_server, call_of, shared_by, keyed}
use nelm_operator.Examples.Releases.{config, reconciler, source_object}

cleanup_chart_source_ref-IsHaunted_example : IsHaunted (
    keyed
      (source_key config source_object)
      (Controller.cleanup_chart_source_ref cluster reconciler
        (some (expected_reference config source_object))
        (call_of "shop" (shared_by ""))).1.world.source)
unfolding release_ref_names split_comma contains names_held
cleanup_chart_source_ref-IsHaunted_example =
    cleanup_chart_source_ref-IsHaunted cluster reconciler cluster-IsLawful source_object
      (cluster_server (source_key config source_object)) (call_of "shop" (shared_by "")) refl refl
