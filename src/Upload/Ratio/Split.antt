-- ===== src/Upload/Ratio/Split.antt =====
-- The parts of a crop ratio, as uploadedfile/thumbfile.go finds them.
use Prim.Native.Char.{Char, code}
use text.Mathlib.TextLemmas.{cons-append, nil-append}
use text.Mathlib.TextEquality.{Char-path}
use mandible.Base.{
  ℕ, String, ◌<>◌, ◌≡◌, refl, sym, ap, ◌∙◌, Bool, true, false, not, ◌&&◌, none, some, arith, inl,
  inr, Option-cases, ◌==◌, nat_eq,
}
use mandible.Base.{if◌then◌else◌}
use mandible.Upload.Ratio.{Parted, part, first_of_two, match_ratio}

unfoldable pub lacks : ℕ → String → Bool
lacks n String.[] = true
lacks n (String.◌∷◌ c s) = not (code c == n) && lacks n s

-- `part` at a character that does not end the line.
part-cons :
    (c : Char) (s : String)
    → (code c == 10) ≡ false
    → part (String.◌∷◌ c s) ≡ record {
      line = String.◌∷◌ c (part s).line;
      here = elim (part s).here [
        | some (a, b) ↦ some (String.◌∷◌ c a, b)
        | none ↦ if code c == b':' then some ("", (part s).line) else none
      ];
      later = (part s).later;
    }
unfolding part
part-cons c s e = rw (e, part)

lacks-head :
    (n : ℕ) (c : Char) (s : String) → lacks n (String.◌∷◌ c s) ≡ true → (code c == n) ≡ false
unfolding lacks
lacks-head n c s h = ground arith

lacks-tail : (n : ℕ) (c : Char) (s : String) → lacks n (String.◌∷◌ c s) ≡ true → lacks n s ≡ true
unfolding lacks
lacks-tail n c s h = ground arith

part-line : (s : String) → lacks 10 s ≡ true → ((part s).line ≡ s) × ((part s).later ≡ none)
unfolding part
part-line String.[] h = (refl, refl)
part-line (String.◌∷◌ c s) h =
    let ih = part-line s (lacks-tail 10 c s h) in
    rw (part-cons c s (lacks-head 10 c s h)) (ap (λ l. String.◌∷◌ c l) ih.0, ih.1)

-- Without a colon there is nothing to part.
part-none : (s : String) → lacks 10 s ≡ true → (part s).here ≡ none → lacks b':' s ≡ true
unfolding part lacks
part-none String.[] h e = refl
part-none (String.◌∷◌ c s) h e =
    let same = part-cons c s (lacks-head 10 c s h) in
    let tail = lacks-tail 10 c s h in
    ground (arith, ap (λ (r : Parted). r.here) same, part-none s tail)

colon_cons : (c : Char) (s : String) → code c ≡ b':' → String.◌∷◌ c s ≡ "" <> (":" <> s)
colon_cons c s e =
    ap (λ d. String.◌∷◌ d s) (Char-path c ":" e)
    ∙ (ap (λ t. String.◌∷◌ ":" t) (sym (nil-append s))
        ∙ (sym (cons-append ":" "" s) ∙ sym (nil-append (":" <> s))))

part-here :
    (s a b : String)
    → lacks 10 s ≡ true
    → (part s).here ≡ some (a, b)
    → (s ≡ a <> (":" <> b)) × (lacks b':' b ≡ true)
unfolding part
part-here String.[] a b h e = cc
part-here (String.◌∷◌ c s) a b h e =
    let same = ap (λ (r : Parted). r.here) (part-cons c s (lacks-head 10 c s h)) in
    let tail = lacks-tail 10 c s h in
    elim (Option-cases (part s).here) [
      | inr ((a', b'), found) ↦
          let ih = part-here s a' b' tail found in
          ground (
            arith,
            same,
            ap (λ (l : String). String.◌∷◌ c l) ih.0,
            cons-append c a' (":" <> b'),
            ih.1,
          )
      | inl nothing ↦
          ground (arith, same, part-line s tail, part-none s tail nothing, colon_cons c s)
    ]

-- A ratio of one line is parted at its last colon, and is refused only if it has none.
pub match_ratio-parts :
    (s : String)
    → lacks 10 s ≡ true
    → ((a b : String) → match_ratio s ≡ some (a, b) → (s ≡ a <> (":" <> b)) × (lacks b':' b ≡ true))
      × (match_ratio s ≡ none → lacks b':' s ≡ true)
unfolding match_ratio first_of_two
match_ratio-parts s h = (
  λ a b e. part-here s a b h (ground (arith, part-line s h)),
  λ e. part-none s h (ground (arith, part-line s h)),
)
