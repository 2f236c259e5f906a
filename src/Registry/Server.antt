-- ===== src/Registry/Server.antt =====
-- What the Kubernetes API documents of one object, as hypotheses, while no other client writes it:
-- a call that succeeds has its effect, and one that fails has none.
use nelm_operator.Base.{
  String, ◌≡◌, true, false, Option, none, some, Error, is_not_found, Result, ok, err,
}
use nelm_operator.Source.{SourceObject}
use nelm_operator.World.{Env, State, Unstructured, ObjectKey, Preconditions}
use nelm_operator.Controller.{Annotations}
use nelm_operator.Registry.Users.{Users, of_list}
use nelm_operator.Registry.Names.{WellFormed}
use nelm_operator.Controller.{release_ref_names}

module _ {World Json : Type 0} (held : World → Option (Unstructured Json)) (key : ObjectKey)
    (before : Option (Unstructured Json)) where
  -- A read finds what is held, or that there is nothing, or fails.
  pub data Reads : Result (Unstructured Json) × World → Type 0 where
    finds :
        (live : Unstructured Json) (w : World)
        → live.key ≡ key
        → before ≡ some live
        → held w ≡ before
        → Reads (ok live, w)
    misses :
        (e : Error) (w : World)
        → is_not_found e ≡ true
        → before ≡ none
        → held w ≡ before
        → Reads (err e, w)
    fails : (e : Error) (w : World) → is_not_found e ≡ false → held w ≡ before → Reads (err e, w)

  -- A write leaves an object with the annotations that it sends.
  pub data Writes {A : Type 0} (annotations : Annotations) : Result A × World → Type 0 where
    writes :
        (a : A) (w : World) (live : Unstructured Json)
        → held w ≡ some live
        → live.annotations ≡ annotations
        → Writes annotations (ok a, w)
    refuses : (e : Error) (w : World) → held w ≡ before → Writes annotations (err e, w)

  -- A deletion leaves nothing, also where there was nothing.
  pub data Deletes : Result (Unit {0}) × World → Type 0 where
    deletes : (u : Unit {0}) (w : World) → held w ≡ none → Deletes (ok u, w)
    is_gone : (e : Error) (w : World) → is_not_found e ≡ true → held w ≡ none → Deletes (err e, w)
    keeps : (e : Error) (w : World) → is_not_found e ≡ false → held w ≡ before → Deletes (err e, w)

abbrev pub Addresses : ObjectKey → SourceObject → Type 0
Addresses key obj =
    (obj.kind ≡ key.kind) × ((obj.namespace ≡ key.namespace) × (obj.name ≡ key.name))

-- The object under a key.
pub record Server (env : Env) (key : ObjectKey) : Type 0 where
  pub held : env.World → Option (Unstructured env.Json)
  pub reads :
      (w : env.World) (before : Option (Unstructured env.Json))
      → held w ≡ before
      → Reads held key before (env.kube.get_object key w)
  pub creates :
      (obj : SourceObject) (w : env.World) (before : Option (Unstructured env.Json))
      → Addresses key obj
      → held w ≡ before
      → Writes held key before obj.annotations (env.kube.create_source obj w)
  pub updates :
      (live : Unstructured env.Json) (w : env.World) (before : Option (Unstructured env.Json))
      → live.key ≡ key
      → held w ≡ before
      → Writes held key before live.annotations (env.kube.update_object live w)
  pub removes :
      (conditions : Option Preconditions) (w : env.World) (before : Option (Unstructured env.Json))
      → held w ≡ before
      → Deletes held key before (env.kube.delete_object key conditions w)

-- The users that an object lists, and what is assumed of its list.
unfoldable pub view : {Json : Type 0} → Option (Unstructured Json) → Option Users
view none = none
view (some live) = some (of_list (release_ref_names live.annotations))

abbrev pub Valid : {Json : Type 0} → Option (Unstructured Json) → Type 0
Valid none = Unit
Valid (some live) = WellFormed (release_ref_names live.annotations)

-- How a change of the users by one Release ends: they are as wanted, or an error left all as it was.
pub data Ended (env : Env) (held : env.World → Option (Unstructured env.Json)) (n : String)
    (before : Option (Unstructured env.Json)) (target : Option Users) {A : Type 0}
    : Result A × State env → Type 0 where
  reaches :
      (a : A) (s : State env)
      → s.rel.name ≡ n
      → Valid (held s.world)
      → view (held s.world) ≡ target
      → Ended env held n before target (ok a, s)
  stays :
      (e : Error) (s : State env)
      → s.rel.name ≡ n
      → held s.world ≡ before
      → Ended env held n before target (err e, s)
