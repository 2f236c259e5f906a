-- ===== src/Registry/Runs.antt =====
-- The Releases share a chart source over many calls of `ensureChartSourceRef` and
-- `cleanupChartSourceRef`, in any order.
use nelm_operator.Base.{String, ◌≡◌, Option, none, some, List, [], ◌∷◌, Error, ok, err}
use nelm_operator.Source.{SourceObject}
use nelm_operator.World.{Env, State, Unstructured}
use nelm_operator.Controller
use nelm_operator.Controller.{Reconciler, source_key, expected_reference, release_ref_names}
use nelm_operator.Laws.Services.{IsLawful}
use nelm_operator.Registry.Users.{Users}
use nelm_operator.Registry.Server.{Server, view, Valid}
use nelm_operator.Registry.Written.{Nameable}
use nelm_operator.Registry.Replay.{Use, takes, drops, replay}

-- The names in the list of a source, if it is there.
unfoldable pub names_held : {Json : Type 0} → Option (Unstructured Json) → List String
names_held none = []
names_held (some live) = release_ref_names live.annotations

module _ (env : Env) (r : Reconciler) (obj : SourceObject) where
  -- A world that a sequence of calls leaves, each for the Release of its own state, with what
  -- they did, the newest first. A call of `ensureChartSourceRef` may fail.
  pub data History (start : env.World) : env.World → List Use → Type 0 where
    untouched : History start start []
    ensured :
        (s s' : State env) (u : Unit {0}) (turns : List Use)
        → History start s.world turns
        → Nameable s.rel.name
        → Controller.ensure_chart_source_ref env r obj s ≡ (ok u, s')
        → History start s'.world (takes s.rel.name ∷ turns)
    not_ensured :
        (s s' : State env) (e : Error) (turns : List Use)
        → History start s.world turns
        → Nameable s.rel.name
        → Controller.ensure_chart_source_ref env r obj s ≡ (err e, s')
        → History start s'.world turns
    cleaned :
        (s s' : State env) (u : Unit {0}) (turns : List Use)
        → History start s.world turns
        → Controller.cleanup_chart_source_ref env r (some (expected_reference r.config obj)) s
          ≡ (ok u, s')
        → History start s'.world (drops s.rel.name ∷ turns)

  module _ (laws : IsLawful env) (server : Server env (source_key r.config obj)) where
    open server use {held}

    -- What holds of the world after the uses.
    abbrev Agrees : env.World → List Use → Type 0
    Agrees w turns = Valid (held w) × (view (held w) ≡ replay turns)
