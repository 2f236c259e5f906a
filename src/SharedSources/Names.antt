-- ===== src/SharedSources/Names.antt =====
-- Whom a chart source lists after `ensureChartSourceRef` and `cleanupChartSourceRef`.
use nelm_operator.Base.{
  String, ◌≡◌, refl, ap, ◌∙◌, Bool, true, false, ◌||◌, none, some, List, [], ◌∷◌, ◌++◌, ok, err,
  split_comma, join_comma, has_comma, NoCommas, is_nil, str_eq, eq_iff, arith, Bool-cases, inl, inr,
  if◌then◌else◌,
}
use nelm_operator.Source.{SourceObject}
use nelm_operator.World.{
  Env, State, Effect, Unstructured, ObjectKey, ◌>>=◌, check, pure, source_updated, object_read,
}
use nelm_operator.Controller
use nelm_operator.Controller.{
  Reconciler, Annotations, contains, delete_first, add_name, release_ref_names, source_key,
}
use nelm_operator.Membership.{contains-append_one}
use nelm_operator.Laws.Keeps.{call-cases}
use nelm_operator.SharedSources.Encoding.{split-join_any, split_comma-NoCommas}

pub contains-add_name :
    (n m : String) (names : List String)
    → contains n (add_name m names) ≡ (str_eq m n || contains n names)
unfolding add_name
contains-add_name n m names = ground (arith, eq_iff m n, contains-append_one n m names)

pub add_name-is_nil : (m : String) (names : List String) → is_nil (add_name m names) ≡ false
unfolding add_name contains
add_name-is_nil m [] = refl
add_name-is_nil m (k ∷ names) = ground arith

append-NoCommas :
    (m : String) (names : List String)
    → has_comma m ≡ false
    → NoCommas names
    → NoCommas (names ++ (m ∷ []))
append-NoCommas m [] h k = (h, tt)
append-NoCommas m (n ∷ names) h k = (k.0, append-NoCommas m names h k.1)

pub add_name-NoCommas :
    (m : String) (names : List String)
    → has_comma m ≡ false
    → NoCommas names
    → NoCommas (add_name m names)
unfolding add_name
add_name-NoCommas m names h k = elim (Bool-cases (contains m names)) [
  | inl listed ↦ rw listed k
  | inr unlisted ↦ rw unlisted (append-NoCommas m names h k)
]

pub release_ref_names-NoCommas : (a : Annotations) → NoCommas (release_ref_names a)
unfolding release_ref_names
release_ref_names-NoCommas none = tt
release_ref_names-NoCommas (some a) = split_comma-NoCommas _

pub contains-delete_first :
    (n m : String) (names : List String)
    → str_eq m n ≡ false
    → contains n (delete_first m names) ≡ contains n names
unfolding contains delete_first
contains-delete_first n m [] h = refl
contains-delete_first n m (k ∷ names) h =
    ground (arith, eq_iff k m, contains-delete_first n m names)

pub delete_first-NoCommas :
    (m : String) (names : List String) → NoCommas names → NoCommas (delete_first m names)
unfolding delete_first
delete_first-NoCommas m [] k = tt
delete_first-NoCommas m (n ∷ names) k = elim (Bool-cases (str_eq n m)) [
  | inl same ↦ rw same (k.1)
  | inr other ↦ rw other (k.0, delete_first-NoCommas m names k.1)
]

-- The newest call writes a text to the source, and the names in it are these.
pub data Writes (key : ObjectKey) (listed : String → Bool) : List Effect → Type 0 where
  written :
      (text : String) (b : Bool) (t : List Effect)
      → ((n : String) → contains n (split_comma text) ≡ listed n)
      → Writes key listed (Effect.source_updated key text b ∷ t)

added-lists :
    (m : String) (a : Annotations) (n : String)
    → has_comma m ≡ false
    → contains n (split_comma (join_comma (add_name m (release_ref_names a))))
      ≡ (str_eq m n || contains n (release_ref_names a))
added-lists m a n h =
    ap (contains n) (
      split-join_any (add_name m (release_ref_names a)) (add_name-is_nil m (release_ref_names a))
        (add_name-NoCommas m (release_ref_names a) h (release_ref_names-NoCommas a)))
    ∙ contains-add_name n m (release_ref_names a)

-- What one attempt leaves in the list: the Release beside all that were there.
abbrev pub with_release : String → Annotations → String → Bool
with_release m a n = str_eq m n || contains n (release_ref_names a)

updated-Writes :
    (env : Env) (r : Reconciler) (s : State env) (live : Unstructured env.Json)
    → has_comma s.rel.name ≡ false
    → Writes live.key
        (with_release s.rel.name live.annotations)
        (check
          (Controller.update_names env r
            (add_name s.rel.name (release_ref_names live.annotations))
            live)
          (λ e. pure (err e))
          (λ _. pure (ok tt))
          s).1.trace
unfolding Controller.update_names pure
updated-Writes env r s live plain =
    let Q : List Effect → Type 0 = Writes live.key (with_release s.rel.name live.annotations) in
    call-cases (λ t. Unit {0}) Q Q Q
      (source_updated live.key
        (join_comma (add_name s.rel.name (release_ref_names live.annotations))))
      _ _ _ (λ t u. written _ false t (λ n. added-lists s.rel.name live.annotations n plain))
      (λ t u. written _ true t (λ n. added-lists s.rel.name live.annotations n plain)) (λ e s h. h)
      (λ a s h. h) s tt

-- One attempt of `ensure_chart_source_ref` that finds the source, for a Release whose name has no
-- comma: its last call writes a list to that source which names the Release and exactly the others
-- that the source listed before.
pub ensure_attempt-Writes :
    (env : Env) (r : Reconciler) (obj : SourceObject) (s : State env) (live : Unstructured env.Json)
    (w : env.World)
    → env.kube.get_object (source_key r.config obj) s.world ≡ (ok live, w)
    → has_comma s.rel.name ≡ false
    → Writes live.key
        (with_release s.rel.name live.annotations)
        (Controller.ensure_attempt env r obj s).1.trace
unfolding Controller.ensure_attempt ◌>>=◌
ensure_attempt-Writes env r obj s live w found plain = rw found (
    updated-Writes env r
      (record s { world = w; trace = object_read (source_key r.config obj) true ∷ s.trace }) live
      plain)

-- The list without one entry of the Release.
abbrev pub without_release : String → Annotations → String → Bool
without_release m a n =
    if str_eq m n
    then contains n (delete_first m (release_ref_names a))
    else contains n (release_ref_names a)
