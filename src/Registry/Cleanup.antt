-- ===== src/Registry/Cleanup.antt =====
-- `cleanupChartSourceRef` is the abstract `detach`.
use nelm_operator.Base.{String, ◌≡◌, Option, none, some, [], Error, Result, ok, err}
use nelm_operator.Source.{SourceObject}
use nelm_operator.World.{Env, State, Unstructured}
use nelm_operator.Controller
use nelm_operator.Controller.{
  Reconciler, Annotations, Latest, contains, without, with_names, source_key, reference_key,
}
use nelm_operator.Registry.Users.{Users, detach}
use nelm_operator.Registry.Server.{Server, view, Valid}
use nelm_operator.Registry.Dropped.{Dropped}

-- How a change of the users by one Release ends that lets the source go: they are as wanted, or an
-- error left all as it was, or the deletion failed and the source stays without a name in its list.
pub data Released (env : Env) (held : env.World → Option (Unstructured env.Json)) (n : String)
    (before : Option (Unstructured env.Json)) (target : Option Users)
    : Result (Unit {0}) × State env → Type 0 where
  lets_go :
      (u : Unit {0}) (s : State env)
      → s.rel.name ≡ n
      → Valid (held s.world)
      → view (held s.world) ≡ target
      → Released env held n before target (ok u, s)
  stays :
      (e : Error) (s : State env)
      → s.rel.name ≡ n
      → held s.world ≡ before
      → Released env held n before target (err e, s)
  strands :
      (e : Error) (s : State env) (live : Unstructured env.Json) (annotations : Annotations)
      → s.rel.name ≡ n
      → target ≡ none
      → held s.world ≡ some live
      → live.annotations ≡ some (with_names [] annotations)
      → Released env held n before target (err e, s)

module _ (env : Env) (r : Reconciler) (obj : SourceObject)
    (server : Server env (source_key r.config obj)) (n : String)
    (before : Option (Unstructured env.Json)) where
  open server use {held, reads, updates, removes}

  abbrev Detaches : Result (Unit {0}) × State env → Type 0
  Detaches out = Released env held n before (detach n (view before)) out
