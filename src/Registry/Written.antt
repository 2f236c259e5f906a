-- ===== src/Registry/Written.antt =====
-- What is read of a list of names that was just written.
use nelm_operator.Base.{
  String, ◌≡◌, sym, subst, ap, ◌∙◌, false, Option, some, List, [], ◌∷◌, Result, ok, err, str_eq,
  has_comma, is_nil, NoCommas, arith,
}
use nelm_operator.Api.{Release}
use nelm_operator.World.{Env, State, Effect, Unstructured, ObjectKey, pure, branch}
use nelm_operator.Controller.{Annotations, release_ref_names, with_names}
use nelm_operator.SharedSources.Encoding.{release_ref_names-with_names}
use nelm_operator.Registry.Users.{Users, of_list}
use nelm_operator.Registry.Names.{WellFormed}
use nelm_operator.Registry.Server.{Writes, writes, refuses, view, Valid, Ended, reaches, stays}

-- A name that can stand in the list.
pub record Nameable (n : String) : Type 0 where
  pub not_empty : str_eq n "" ≡ false
  pub no_comma : has_comma n ≡ false

-- The names that are read from annotations which were just written.
pub written_names :
    (names : List String) (a : Annotations)
    → is_nil names ≡ false
    → NoCommas names
    → release_ref_names (some (with_names names a)) ≡ names
written_names [] a more h = ground arith
written_names (n ∷ names) a more h = release_ref_names-with_names n names a h

-- What is held, given the names that its annotations list.
pub view_names :
    {Json : Type 0} (o : Option (Unstructured Json)) (live : Unstructured Json)
    (names : List String)
    → o ≡ some live
    → release_ref_names live.annotations ≡ names
    → view o ≡ some (of_list names)
unfolding view
view_names o live names q h = ap view q ∙ ap (λ l. some (of_list l)) h

pub Valid-names :
    {Json : Type 0} (o : Option (Unstructured Json)) (live : Unstructured Json)
    (names : List String)
    → o ≡ some live
    → release_ref_names live.annotations ≡ names
    → WellFormed names
    → Valid o
Valid-names o live names q h w = subst Valid (sym q) (subst WellFormed (sym h) w)

module _ (env : Env) (held : env.World → Option (Unstructured env.Json)) (n : String)
    (before : Option (Unstructured env.Json)) (target : Option Users) {A : Type 0} where
  -- A write of a list of names ends as the list says.
  pub Writes-Ended :
      (key : ObjectKey) (names : List String) (annotations : Annotations)
      → is_nil names ≡ false
      → NoCommas names
      → WellFormed names
      → some (of_list names) ≡ target
      → (rel : Release) (trace : List Effect) → rel.name ≡ n
      → (out : Result A × env.World)
      → Writes held key before (some (with_names names annotations)) out
      → Ended env held n before target (out.0, record { rel = rel; world = out.1; trace = trace })
  Writes-Ended key names annotations more commas good q rel trace same _
        (writes a w live now sent) =
      let lists = ap release_ref_names sent ∙ written_names names annotations more commas in
      reaches a _ same (Valid-names (held w) live names now lists good)
        (view_names (held w) live names now lists ∙ q)
  Writes-Ended key names annotations more commas good q rel trace same _ (refuses e w kept) =
      stays e _ same kept

  -- The same with the answer of the write dropped.
  pub Ended-check :
      (out : Result A × State env)
      → Ended env held n before target out
      → Ended env held n before target (branch (λ e. pure (err e)) (λ _. pure (ok tt)) out.0 out.1)
  unfolding pure
  Ended-check _ (reaches a s same good q) = reaches tt s same good q
  Ended-check _ (stays e s same kept) = stays e s same kept
