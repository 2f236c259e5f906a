-- ===== src/Watches/Digest.antt =====
-- What `extractDigest` finds in a revision.
use Prim.Native.String as Text
use text.Mathlib.TextLemmas.{nil-append, cons-append}
use nelm_operator.Base.{String, ◌<>◌, ◌≡◌, refl, ap, ◌∙◌, true, false, [], ◌∷◌, arith}
use nelm_operator.Watches.{has_at_sign, split_at_sign, second_of_two, extract_digest}

sign-append : (s : String) → "@" <> s ≡ Text.◌∷◌ "@" s
sign-append s = cons-append "@" "" s ∙ ap (Text.◌∷◌ "@") (nil-append s)

single_piece : (s : String) → has_at_sign s ≡ false → split_at_sign s ≡ s ∷ []
unfolding split_at_sign has_at_sign
single_piece Text.[] h = refl
single_piece (Text.◌∷◌ c s) h = ground (arith, single_piece s)

two_pieces :
    (version digest : String)
    → has_at_sign version ≡ false
    → has_at_sign digest ≡ false
    → split_at_sign (version <> ("@" <> digest)) ≡ version ∷ digest ∷ []
unfolding split_at_sign has_at_sign
two_pieces Text.[] digest h k =
    ap split_at_sign (nil-append _ ∙ sign-append digest) ∙ ap (λ l. "" ∷ l) (single_piece digest k)
two_pieces (Text.◌∷◌ c version) digest h k =
    ap split_at_sign (cons-append c version ("@" <> digest))
    ∙ ground (arith, two_pieces version digest)

signed : (version digest : String) → has_at_sign (version <> ("@" <> digest)) ≡ true
unfolding has_at_sign
signed Text.[] digest = ap has_at_sign (nil-append _ ∙ sign-append digest)
signed (Text.◌∷◌ c version) digest =
    ap has_at_sign (cons-append c version ("@" <> digest)) ∙ ground (arith, signed version digest)

-- From a version and a digest that hold no at sign, joined by one, the digest is read back, and a
-- digest that stands alone is read as it is.
pub extract_digest_back :
    (version digest : String)
    → has_at_sign version ≡ false
    → has_at_sign digest ≡ false
    → (extract_digest (version <> ("@" <> digest)) ≡ digest) × (extract_digest digest ≡ digest)
unfolding extract_digest second_of_two
extract_digest_back version digest h k =
    (rw (signed version digest) (ap second_of_two (two_pieces version digest h k)), rw k refl)
