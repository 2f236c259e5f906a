-- ===== src/SharedSources/Encoding.antt =====
-- A list of names is read back from the annotation that it is written to.
use Prim.Native.Char.{Char}
use Prim.Native.String as Text
use text.Mathlib.TextLemmas.{nil-append, cons-append}
use nelm_operator.Base.{
  String, ◌≡◌, refl, ap, ◌∙◌, false, some, List, [], ◌∷◌, split_comma, join_comma, has_comma,
  is_comma, push_char, NoCommas, arith, read-insert_self, is_nil, Bool-cases, inl, inr,
}
use nelm_operator.Api.Constants.{source_ref_release_ref_annotation_name}
use nelm_operator.Controller.{Annotations, or_empty, release_ref_names, with_names}

split-single : (p : String) → has_comma p ≡ false → split_comma p ≡ p ∷ []
unfolding split_comma
split-single Text.[] h = refl
split-single (Text.◌∷◌ c s) h = ground (arith, split-single s)

comma-append : (s : String) → Text.◌++◌ "," s ≡ Text.◌∷◌ "," s
comma-append s = cons-append "," "" s ∙ ap (Text.◌∷◌ ",") (nil-append s)

split-append :
    (p s : String)
    → has_comma p ≡ false
    → split_comma (Text.◌++◌ p (Text.◌++◌ "," s)) ≡ p ∷ split_comma s
unfolding split_comma
split-append Text.[] s h = ap split_comma (nil-append _ ∙ comma-append s)
split-append (Text.◌∷◌ c p) s h =
    ap split_comma (cons-append c p (Text.◌++◌ "," s)) ∙ ground (arith, split-append p s)

pub split-join :
    (name : String) (names : List String)
    → NoCommas (name ∷ names)
    → split_comma (join_comma (name ∷ names)) ≡ name ∷ names
unfolding join_comma
split-join name [] h = split-single name h.0
split-join name (next ∷ names) h =
    split-append name (join_comma (next ∷ names)) h.0
    ∙ ap (λ rest. name ∷ rest) (split-join next names h.1)

pub release_ref_names-with_names :
    (name : String) (names : List String) (annotations : Annotations)
    → NoCommas (name ∷ names)
    → release_ref_names (some (with_names (name ∷ names) annotations)) ≡ name ∷ names
unfolding release_ref_names with_names
release_ref_names-with_names name names annotations h =
    ap split_comma
      (read-insert_self source_ref_release_ref_annotation_name _ (or_empty annotations))
    ∙ split-join name names h

-- The same for a list that is known not to be empty.
pub split-join_any :
    (names : List String)
    → is_nil names ≡ false
    → NoCommas names
    → split_comma (join_comma names) ≡ names
split-join_any [] h commas = ground arith
split-join_any (name ∷ names) h commas = split-join name names commas

push_char-NoCommas :
    (c : Char) (pieces : List String)
    → is_comma c ≡ false
    → NoCommas pieces
    → NoCommas (push_char c pieces)
push_char-NoCommas c [] h k = (ground arith, tt)
push_char-NoCommas c (piece ∷ pieces) h k = (ground arith, k.1)

-- The pieces of a text hold no comma.
pub split_comma-NoCommas : (s : String) → NoCommas (split_comma s)
unfolding split_comma
split_comma-NoCommas Text.[] = (refl, tt)
split_comma-NoCommas (Text.◌∷◌ c s) = elim (Bool-cases (is_comma c)) [
  | inl comma ↦ rw comma (refl, split_comma-NoCommas s)
  | inr other ↦ rw other (push_char-NoCommas c (split_comma s) other (split_comma-NoCommas s))
]
