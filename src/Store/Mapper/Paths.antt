-- ===== src/Store/Mapper/Paths.antt =====
-- The paths that imagestore/namepathmapper.go makes of an object.
use Prim.Native.Char.{code}
use text.Mathlib.TextLemmas.{append-nil, cons-append, nil-append}
use mandible.Base.{String, ◌<>◌, ◌≡◌, refl, sym, ap, ◌∙◌, Bool, true, not, ◌&&◌, none, arith}
use mandible.Base.{Bool-cases, inl, inr, ◌==◌, nat_eq}
use mandible.Store.Types.{StoreObject}
use mandible.Store.Mapper.{NamePathMapper, replace_all, map_to_path}

-- No character of the text is a dollar sign.
unfoldable pub lacks_dollar : String → Bool
lacks_dollar String.[] = true
lacks_dollar (String.◌∷◌ c s) = not (code c == b'$') && lacks_dollar s

-- The mapping of config/default.conf.json, with no expression.
abbrev pub plain_mapper : NamePathMapper
plain_mapper = record { regex = none; replace = "${ImageSize}/${ImageName}" }

replace_all-fresh : (new s : String) → lacks_dollar s ≡ true → replace_all "${ImageSize}" new s ≡ s
unfolding replace_all lacks_dollar
replace_all-fresh new String.[] h = refl
replace_all-fresh new (String.◌∷◌ c s) h = elim (Bool-cases (code c == b'$')) [
  | inl e ↦ ground arith
  | inr e ↦
      ground (arith, ap (λ (u : String). String.◌∷◌ c u) (replace_all-fresh new s (ground arith)))
]

-- `<>` of a text that is known, character by character.
prepend : String → String → String
prepend String.[] t = t
prepend (String.◌∷◌ c s) t = String.◌∷◌ c (prepend s t)

prepend-append : (s t : String) → prepend s t ≡ s <> t
unfolding prepend
prepend-append String.[] t = sym (nil-append t)
prepend-append (String.◌∷◌ c s) t =
    ap (λ u. String.◌∷◌ c u) (prepend-append s t) ∙ sym (cons-append c s t)

-- Under the mapping `${ImageSize}/${ImageName}` an object lies at its size, a slash and its
-- identifier, provided that there is no dollar sign in the identifier.
pub map_to_path-plain_mapper :
    (obj : StoreObject)
    → lacks_dollar obj.id ≡ true
    → map_to_path plain_mapper obj ≡ obj.size <> ("/" <> obj.id)
unfolding map_to_path prepend
map_to_path-plain_mapper obj h =
    ap (λ t. replace_all "${ImageSize}" obj.size (prepend "${ImageSize}/" t)) (append-nil obj.id)
    ∙ (ap (λ t. obj.size <> prepend "/" t) (replace_all-fresh obj.size obj.id h)
        ∙ ap (λ t. obj.size <> t) (prepend-append "/" obj.id))
