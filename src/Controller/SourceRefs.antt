-- ===== src/Controller/SourceRefs.antt =====
-- `ensureChartSourceRef` and `cleanupChartSourceRef`: the annotation of a chart source that lists
-- the names of the Releases that use it.
use nelm_operator.Base.{
  String, ◌<>◌, Bool, false, ◌||◌, Option, none, some, List, [], ◌∷◌, ◌++◌, Dict, read, insert,
  split_comma, join_comma, is_nil, str_eq, if◌then◌else◌, wrap, is_not_found, ignore_not_found,
  Result, ok, err,
}
use nelm_operator.Api.{ChartSourceReference}
use nelm_operator.Api.Constants.{source_ref_release_ref_annotation_name}
use nelm_operator.Config.{OperatorConfig}
use nelm_operator.Source.{SourceObject}
use nelm_operator.World.{
  Env, Unstructured, ObjectKey, Act, State, ◌>>=◌, check, pure, gets, call, object_read,
  source_created, source_updated, object_deleted,
}
use nelm_operator.Controller.Returns.{Reconciler}

abbrev pub Annotations : Type 0
Annotations = Option (Dict String)

-- `if annotations == nil { annotations = make(…) }`
abbrev pub or_empty : Annotations → Dict String
or_empty none = []
or_empty (some a) = a

-- `getChartSourceReleaseRefNamesSlice`
unfoldable pub release_ref_names : Annotations → List String
unfolding read
release_ref_names none = []
release_ref_names (some a) = split_comma (read source_ref_release_ref_annotation_name a)

-- `slices.Contains`
unfoldable pub contains : String → List String → Bool
contains n [] = false
contains n (m ∷ names) = str_eq m n || contains n names

-- `slices.Delete` at the index of the first match.
unfoldable pub delete_first : String → List String → List String
delete_first n [] = []
delete_first n (m ∷ names) = if str_eq m n then names else m ∷ delete_first n names

-- The list that `ensureChartSourceRef` writes back.
unfoldable pub add_name : String → List String → List String
unfolding contains
add_name n names = if contains n names then names else names ++ (n ∷ [])

-- The annotations with the list of names put in.
unfoldable pub with_names : List String → Annotations → Dict String
unfolding insert
with_names names annotations =
    insert source_ref_release_ref_annotation_name (join_comma names) (or_empty annotations)

abbrev pub source_key : OperatorConfig → SourceObject → ObjectKey
source_key config obj = record {
  group = config.source_api_group;
  version = config.source_api_version;
  kind = obj.kind;
  namespace = obj.namespace;
  name = obj.name;
}

abbrev pub reference_key : OperatorConfig → ChartSourceReference → ObjectKey
reference_key config ref = record {
  group = config.source_api_group;
  version = config.source_api_version;
  kind = ref.kind;
  namespace = ref.namespace;
  name = ref.name;
}

module _ (env : Env) (r : Reconciler) where
  abbrev pub Live : Type 0
  Live = Unstructured env.Json

  -- `r.Update(ctx, unstruct)` with the list of names in the annotation.
  unfoldable pub update_names : List String → Live → Act env (Result Live)
  unfolding with_names
  update_names names live =
      let changed : Live = record live { annotations = some (with_names names live.annotations) } in
      call (source_updated live.key (join_comma names)) (env.kube.update_object changed)

  -- `r.Create(ctx, chartSource)` with the Release's name in the annotation.
  unfoldable pub create_named : SourceObject → Act env (Result (Unit {0}))
  unfolding insert
  create_named obj = do
    name ← gets (λ rel. rel.name)
    let annotations = insert source_ref_release_ref_annotation_name name (or_empty obj.annotations)
    call (source_created (source_key r.config obj) name)
        (env.kube.create_source (record obj { annotations = some annotations }))

  -- One attempt of `ensureChartSourceRef`.
  unfoldable pub ensure_attempt : SourceObject → Act env (Result (Unit {0}))
  unfolding create_named update_names add_name release_ref_names
  ensure_attempt obj =
      let key = source_key r.config obj in
      check (call (object_read key) (env.kube.get_object key))
        (λ e.
          if is_not_found e
          then create_named obj
          else pure (
              err (
                wrap ("get source " <> (obj.namespace <> ("/" <> (obj.kind <> ("/" <> obj.name)))))
                  e)))
        λ live. do
          name ← gets (λ rel. rel.name)
          check (update_names (add_name name (release_ref_names live.annotations)) live)
              (λ e. pure (err e)) (λ _. pure (ok tt))

  -- `ensureChartSourceRef`
  unfoldable pub ensure_chart_source_ref : SourceObject → Act env (Result (Unit {0}))
  unfolding ensure_attempt
  ensure_chart_source_ref obj = env.kube.retry_on_conflict (State env) (ensure_attempt obj)

  -- What an attempt of `cleanupChartSourceRef` leaves in the variables that its closure shares.
  abbrev pub Latest : Type 0
  Latest = Option (Live × List String)

  abbrev pub Attempt : Type 0
  Attempt = Result (Unit {0}) × (State env × Latest)

  -- An attempt whose update succeeded leaves the source and its names.
  unfoldable pub note_update : List String → Latest → Result Live × State env → Attempt
  note_update names latest (err e, s) = (err e, (s, latest))
  note_update names latest (ok stored, s) = (ok tt, (s, some (stored, names)))

  -- A source that is gone, or that does not list the Release, is left alone.
  unfoldable pub drop_name : Latest → Result Live × State env → Attempt
  unfolding update_names contains delete_first release_ref_names note_update
  drop_name latest (err e, s) = (ignore_not_found tt e, (s, latest))
  drop_name latest (ok live, s) =
      let names = release_ref_names live.annotations in
      let rest = delete_first s.rel.name names in
      if contains s.rel.name names
      then note_update rest latest (update_names rest live s)
      else (ok tt, (s, latest))

  -- One attempt of `cleanupChartSourceRef`.
  unfoldable pub cleanup_attempt : ChartSourceReference → State env × Latest → Attempt
  unfolding drop_name
  cleanup_attempt ref (s, latest) =
      let key = reference_key r.config ref in
      drop_name latest (call (object_read key) (env.kube.get_object key) s)

  -- The deletion of a source that no Release uses any more, if it is as it was just written.
  unfoldable pub delete_unused : ChartSourceReference → Live → Act env (Result (Unit {0}))
  delete_unused ref live =
      let key = reference_key r.config ref in
      check
        (call (object_deleted key) (
          env.kube.delete_object key
            (some (record { resource_version = live.resource_version; uid = live.uid }))))
        (λ e. pure (ignore_not_found tt e)) (λ _. pure (ok tt))

  -- What follows the attempts.
  unfoldable pub finish_cleanup :
      ChartSourceReference → Result (Unit {0}) → Latest → Act env (Result (Unit {0}))
  unfolding delete_unused
  finish_cleanup ref (err e) latest = pure (err e)
  finish_cleanup ref (ok _) none = pure (ok tt)
  finish_cleanup ref (ok _) (some (live, names)) =
      if is_nil names then delete_unused ref live else pure (ok tt)

  -- `cleanupChartSourceRef`
  unfoldable pub cleanup_chart_source_ref :
      Option ChartSourceReference → Act env (Result (Unit {0}))
  unfolding cleanup_attempt finish_cleanup
  cleanup_chart_source_ref none s = (ok tt, s)
  cleanup_chart_source_ref (some ref) s =
      let (result, after) =
        env.kube.retry_on_conflict (State env × Latest) (cleanup_attempt ref) (s, none) in
      finish_cleanup ref result after.1 after.0
