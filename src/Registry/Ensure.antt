-- ===== src/Registry/Ensure.antt =====
-- `ensureChartSourceRef` is the abstract `attach`.
use nelm_operator.Base.{String, Option, Result}
use nelm_operator.Source.{SourceObject}
use nelm_operator.World.{Env, State, Unstructured}
use nelm_operator.Controller
use nelm_operator.Controller.{Reconciler, Annotations, or_empty, source_key}
use nelm_operator.Registry.Users.{attach}
use nelm_operator.Registry.Server.{Server, view, Ended}
use nelm_operator.Registry.Written.{Nameable}

module _ (env : Env) (r : Reconciler) (obj : SourceObject)
    (server : Server env (source_key r.config obj)) (n : String) (name : Nameable n)
    (before : Option (Unstructured env.Json)) where
  open server use {held, reads, creates, updates}

  abbrev Attaches : {A : Type 0} → Result A × State env → Type 0
  Attaches out = Ended env held n before (attach n (view before)) out
