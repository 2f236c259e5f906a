-- ===== src/Registry/Stranded.antt =====
-- A chart source whose list holds an empty name: `strings.Split` reads one from an empty list.
use nelm_operator.Base.{
  String, ◌≡◌, refl, sym, subst, ap, ◌∙◌, true, false, Option, none, some, List, [], ◌∷◌, is_nil,
  arith, str_eq, NoCommas,
}
use nelm_operator.Source.{SourceObject}
use nelm_operator.World.{Env, State, Unstructured, pure}
use nelm_operator.Controller
use nelm_operator.Controller.{
  Reconciler, Annotations, Attempt, contains, delete_first, release_ref_names, with_names,
  source_key, expected_reference, or_empty,
}
use nelm_operator.Laws.Services.{IsLawful}
use nelm_operator.SharedSources.Names.{
  contains-delete_first, delete_first-NoCommas, release_ref_names-NoCommas,
}
use nelm_operator.Registry.Server.{Server}
use nelm_operator.Registry.Runs.{names_held}
use nelm_operator.Registry.Written.{written_names}
use nelm_operator.Registry.Dropped.{Dropped, failing, settled, written, fresh, Retried-Dropped}

-- A source is there, and its list holds an empty name.
abbrev pub IsHaunted : {Json : Type 0} → Option (Unstructured Json) → Type 0
unfolding names_held
IsHaunted o = contains "" (names_held o) ≡ true

listed_not_nil : (n : String) (names : List String) → contains n names ≡ true → is_nil names ≡ false
unfolding contains
listed_not_nil n [] h = ground arith
listed_not_nil n (m ∷ names) h = refl

module _ (env : Env) (r : Reconciler) (obj : SourceObject)
    (server : Server env (source_key r.config obj)) (n : String) (named : str_eq n "" ≡ false) where
  open server use {held}

  written-IsHaunted :
      (old live : Unstructured env.Json) (o : Option (Unstructured env.Json)) (names : List String)
      → contains "" (release_ref_names old.annotations) ≡ true
      → names ≡ delete_first n (release_ref_names old.annotations)
      → o ≡ some live
      → live.annotations ≡ some (with_names names old.annotations)
      → (is_nil names ≡ false) × IsHaunted o
  unfolding names_held
  written-IsHaunted old live o names empty q now sent = (
    more,
    ap (λ x. contains "" (names_held x)) now
        ∙ (ap (λ a. contains "" (release_ref_names a)) sent
            ∙ (ap (contains "") (written_names names old.annotations more commas) ∙ still)),
  )
    where
      still : contains "" names ≡ true
      still =
          ap (contains "") q
          ∙ (contains-delete_first "" n (release_ref_names old.annotations) named ∙ empty)

      more : is_nil names ≡ false
      more = listed_not_nil "" names still

      commas : NoCommas names
      commas = subst NoCommas (sym q) (
          delete_first-NoCommas n (release_ref_names old.annotations)
            (release_ref_names-NoCommas old.annotations))

  finished-IsHaunted :
      (before : Option (Unstructured env.Json)) (out : Attempt env r)
      → IsHaunted before
      → Dropped env r obj server n before out
      → IsHaunted (
          held
            (Controller.finish_cleanup env r
              (expected_reference r.config obj)
              out.0
              out.1.1
              out.1.0).1.world)
  unfolding Controller.finish_cleanup pure names_held
  finished-IsHaunted before _ h (failing e s same now) = subst IsHaunted (sym now) h
  finished-IsHaunted before _ h (settled u s same now idle) = subst IsHaunted (sym now) h
  finished-IsHaunted before _ h (written u s old stored live names same there listed q now sent) =
      let (more, left) =
        written-IsHaunted old live (held s.world) names (subst IsHaunted there h) q now sent in
      rw more left

-- With a client that retries as documented, and no other writer of the chart source while the call
-- runs: a source whose list holds an empty name, as an empty annotation does, keeps it in every
-- cleanup for a Release with a name, and so is not deleted, whether or not another user is left.
pub cleanup_chart_source_ref-IsHaunted :
    (env : Env) (r : Reconciler)
    → IsLawful env
    → (obj : SourceObject) (server : Server env (source_key r.config obj)) (s : State env)
    → str_eq s.rel.name "" ≡ false
    → IsHaunted (server.held s.world)
    → IsHaunted (
        server.held
          (Controller.cleanup_chart_source_ref env r
            (some (expected_reference r.config obj))
            s).1.world)
unfolding Controller.cleanup_chart_source_ref
cleanup_chart_source_ref-IsHaunted env r laws obj server s named h =
    finished-IsHaunted env r obj server s.rel.name named (server.held s.world) _ h (
      Retried-Dropped env r obj server s.rel.name (server.held s.world) (s, none)
        (laws.retried _ (Controller.cleanup_attempt env r (expected_reference r.config obj))
          (s, none))
        (fresh s refl refl refl))
