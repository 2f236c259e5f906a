-- ===== src/Registry/Dropped.antt =====
-- How one attempt of `cleanupChartSourceRef` ends, and the attempts together.
use nelm_operator.Base.{
  String, ◌≡◌, refl, sym, subst, ap, ◌∙◌, true, false, Option, none, some, List, Error, Result, ok,
  err, is_nil, if◌then◌else◌, Bool-cases, inl, inr,
}
use nelm_operator.Api.{Release}
use nelm_operator.Source.{SourceObject}
use nelm_operator.World.{Env, State, Effect, Unstructured, run}
use nelm_operator.Controller
use nelm_operator.Controller.{
  Reconciler, Annotations, Latest, Attempt, contains, delete_first, without, release_ref_names,
  with_names, source_key, reference_key, expected_reference,
}
use nelm_operator.Laws.Services.{Retried, once, again}
use nelm_operator.Registry.Users.{
  of_list, of_list_eq, SameUsers-is_nil, uses, is_unused, depart, detach,
}
use nelm_operator.Registry.Names.{WellFormed, SameUsers-delete_first}
use nelm_operator.Registry.Server.{
  Server, Reads, finds, misses, fails, Writes, writes, refuses, view,
}

pub detach_listed :
    (n : String) (names : List String)
    → WellFormed names
    → contains n names ≡ true
    → detach n (some (of_list names))
      ≡ (if is_nil (delete_first n names) then none else some (of_list (delete_first n names)))
unfolding detach uses is_unused depart of_list
detach_listed n names good listed =
    rw
      (
        listed,
        SameUsers-is_nil (without n names) (delete_first n names)
            (λ k. sym (SameUsers-delete_first n names good.distinct k)),
      )
      (ap (λ u. if is_nil (delete_first n names) then none else some u)
        (of_list_eq (without n names) (delete_first n names)
          (λ k. sym (SameUsers-delete_first n names good.distinct k))))

detach_unlisted :
    (n : String) (names : List String)
    → contains n names ≡ false
    → detach n (some (of_list names)) ≡ some (of_list names)
unfolding detach uses of_list
detach_unlisted n names unlisted = rw unlisted refl

module _ (env : Env) (r : Reconciler) (obj : SourceObject)
    (server : Server env (source_key r.config obj)) (n : String)
    (before : Option (Unstructured env.Json)) where
  open server use {held, reads, updates, removes}

  -- How one attempt ends: with an error, with nothing to do, or with a list written back.
  pub data Dropped : Attempt env r → Type 0 where
    failing :
        (e : Error) (s : State env)
        → s.rel.name ≡ n
        → held s.world ≡ before
        → Dropped (err e, (s, none))
    settled :
        (u : Unit {0}) (s : State env)
        → s.rel.name ≡ n
        → held s.world ≡ before
        → detach n (view before) ≡ view before
        → Dropped (ok u, (s, none))
    written :
        (u : Unit {0}) (s : State env) (old stored live : Unstructured env.Json)
        (names : List String)
        → s.rel.name ≡ n
        → before ≡ some old
        → contains n (release_ref_names old.annotations) ≡ true
        → names ≡ delete_first n (release_ref_names old.annotations)
        → held s.world ≡ some live
        → live.annotations ≡ some (with_names names old.annotations)
        → Dropped (ok u, (s, some (stored, names)))

  -- An update of the list of a source that names the Release.
  noted-Dropped :
      (old : Unstructured env.Json) (rel : Release) (trace : List Effect)
      → before ≡ some old
      → rel.name ≡ n
      → contains n (release_ref_names old.annotations) ≡ true
      → (names : List String) → names ≡ delete_first n (release_ref_names old.annotations)
      → (out : Result (Unstructured env.Json) × env.World)
      → Writes held (source_key r.config obj) before (some (with_names names old.annotations)) out
      → Dropped (
          Controller.note_update env r names none
            (out.0, record { rel = rel; world = out.1; trace = trace }))
  unfolding Controller.note_update
  noted-Dropped old rel trace there same listed names q _ (writes stored w live now sent) =
      written tt _ old stored live names same there listed q now sent
  noted-Dropped old rel trace there same listed names q _ (refuses e w kept) = failing e _ same kept

  -- What follows the read.
  read-Dropped :
      (rel : Release) (trace : List Effect)
      → rel.name ≡ n
      → (out : Result (Unstructured env.Json) × env.World)
      → Reads held (source_key r.config obj) before out
      → Dropped (
          Controller.drop_name env r none
            (out.0, record { rel = rel; world = out.1; trace = trace }))
  unfolding Controller.drop_name Controller.update_names run view detach
  read-Dropped rel trace same _ (misses e w gone empty now) =
      rw gone (settled tt _ same now (ap (λ b. detach n (view b)) empty ∙ ap view (sym empty)))
  read-Dropped rel trace same _ (fails e w other now) = rw other (failing e _ same now)
  read-Dropped rel trace same _ (finds old w at there now) =
      elim (Bool-cases (contains rel.name names)) [
        | inl listed ↦ rw listed (
            noted-Dropped old rel _ there same (subst (λ k. contains k names ≡ true) same listed)
              (delete_first rel.name names) (ap (λ k. delete_first k names) same) _
              (updates _ w before at now))
        | inr unlisted ↦ rw unlisted (
            settled tt _ same now (
              ap (λ b. detach n (view b)) there
              ∙ (detach_unlisted n names (subst (λ k. contains k names ≡ false) same unlisted)
                  ∙ ap view (sym there))))
      ]
    where
      names : List String
      names = release_ref_names old.annotations

  attempts-Dropped :
      (s : State env)
      → s.rel.name ≡ n
      → held s.world ≡ before
      → Dropped (Controller.cleanup_attempt env r (expected_reference r.config obj) (s, none))
  unfolding Controller.cleanup_attempt run expected_reference
  attempts-Dropped s same h =
      let key = source_key r.config obj in
      read-Dropped s.rel _ same (env.kube.get_object key s.world) (reads s.world before h)

  -- A conflict has noted nothing.
  pub data Fresh (p : State env × Latest env r) : Type 0 where
    fresh : (s : State env) → p ≡ (s, none) → s.rel.name ≡ n → held s.world ≡ before → Fresh p

  failed-Fresh : (e : Error) (p : State env × Latest env r) → Dropped (err e, p) → Fresh p
  failed-Fresh e p (failing _ s same h) = fresh s refl same h

  pub Retried-Dropped :
      (p : State env × Latest env r) {out : Attempt env r}
      → Retried (Controller.cleanup_attempt env r (expected_reference r.config obj)) p out
      → Fresh p
      → Dropped out
  Retried-Dropped p (once _) (fresh s q same h) =
      subst (λ x. Dropped (Controller.cleanup_attempt env r (expected_reference r.config obj) x))
        (sym q) (attempts-Dropped s same h)
  Retried-Dropped p (again _ e p' step c more) (fresh s q same h) = Retried-Dropped p' more (
      failed-Fresh e p' (
        subst Dropped
          (ap (Controller.cleanup_attempt env r (expected_reference r.config obj)) (sym q) ∙ step)
          (attempts-Dropped s same h)))
