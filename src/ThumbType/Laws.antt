-- ===== src/ThumbType/Laws.antt =====
-- What the three conversions of imageprocessor/thumbType/thumbType.go have to do with one another.
use text.Mathlib.TextLemmas.{append_cancel_left}
use mandible.Base.{
  Bool-cases, inl, inr, String, ◌<>◌, ◌≡◌, refl, sym, ap, ◌∙◌, arith, eq_iff, ◌==◌, string_eq,
  if◌then◌else◌,
}
use mandible.ThumbType.Formats.{
  ThumbType, unknown, jpg, png, gif, webp, to_string, from_mime, from_string,
}

-- The format that a name belongs to.
named : String → ThumbType
named s =
    if s == "JPG"
    then jpg
    else if s == "PNG"
    then png
    else if s == "GIF"
    then gif
    else if s == "WEBP"
    then webp
    else unknown

named-to_string : (t : ThumbType) → named (to_string t) ≡ t
unfolding named to_string
named-to_string unknown = refl
named-to_string jpg = refl
named-to_string png = refl
named-to_string gif = refl
named-to_string webp = refl

-- A format's name is the name of no other format.
pub to_string-injective : (s t : ThumbType) → to_string s ≡ to_string t → s ≡ t
to_string-injective s t h = sym (named-to_string s) ∙ (ap named h ∙ named-to_string t)

==-append_left : (p s t : String) → (p <> s == p <> t) ≡ (s == t)
==-append_left p s t = ground (
  arith,
  eq_iff (p <> s) (p <> t),
  eq_iff s t,
  append_cancel_left p s t,
  λ (e : s ≡ t). ap (λ u. p <> u) e,
)

-- A format that is asked for by name is the format of the mime type `image/` and that name, but for
-- the name `jpg`: as a mime type that one is unknown.
pub from_mime-from_string :
    (name : String)
    → from_mime ("image/" <> name) ≡ (if name == "jpg" then unknown else from_string name)
unfolding from_mime from_string
from_mime-from_string name = rw (==-append_left "image/" name "jpeg") (
    rw (==-append_left "image/" name "png") (
      rw (==-append_left "image/" name "gif") (
        rw (==-append_left "image/" name "webp") (elim (Bool-cases (name == "jpg")) [
          | inl e ↦ rw ((eq_iff name "jpg").0 e) refl
          | inr n ↦ rw n (ground arith)
        ]))))
