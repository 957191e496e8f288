-- ===== src/Command/Words/Runs.antt =====
-- The words that imageprocessor/processorcommand/ocrcommands.go finds in a text.
use Prim.Native.Char.{Char}
use mandible.Base.{
  String, ◌≡◌, refl, ◌≢◌, sym, ap, ◌∙◌, Bool, true, ◌&&◌, List, [], ◌∷◌, arith, All, inl, inr,
  Bool-cases, ◌==◌, string_eq, eq_iff, if◌then◌else◌,
}
use mandible.Command.Words.{is_word_char, with_word, runs, words}

-- All characters of the text can stand in a word.
unfoldable pub all_word_chars : String → Bool
all_word_chars String.[] = true
all_word_chars (String.◌∷◌ c s) = is_word_char c && all_word_chars s

-- The text without the characters that cannot stand in a word.
unfoldable pub word_chars : String → String
word_chars String.[] = ""
word_chars (String.◌∷◌ c s) =
    let rest = word_chars s in if is_word_char c then String.◌∷◌ c rest else rest

-- Character by character, to compute with.
unfoldable pub put : String → String → String
put String.[] t = t
put (String.◌∷◌ c s) t = String.◌∷◌ c (put s t)

unfoldable pub put_all : List String → String
put_all [] = ""
put_all (w ∷ ws) = put w (put_all ws)

abbrev pub IsWord : String → Type 0
IsWord w = (w ≢ "") × (all_word_chars w ≡ true)

with_word-IsWord :
    (w : String) (ws : List String)
    → all_word_chars w ≡ true
    → All IsWord ws
    → All IsWord (with_word w ws)
with_word-IsWord w ws h k = elim (Bool-cases (w == "")) [
  | inl y ↦ rw y k
  | inr n ↦ rw n ((ground (arith, eq_iff w ""), h), k)
]

put_all-with_word : (w : String) (ws : List String) → put_all (with_word w ws) ≡ put w (put_all ws)
unfolding put put_all
put_all-with_word w ws = elim (Bool-cases (w == "")) [
  | inl y ↦ rw y (ap (λ v. put v (put_all ws)) (sym ((eq_iff w "").0 y)))
  | inr n ↦ rw n refl
]

all_word_chars-cons :
    (c : Char) (w : String)
    → is_word_char c ≡ true
    → all_word_chars w ≡ true
    → all_word_chars (String.◌∷◌ c w) ≡ true
unfolding all_word_chars
all_word_chars-cons c w y h = ground arith

runs-IsWord : (s : String) → (all_word_chars (runs s).0 ≡ true) × All IsWord (runs s).1
unfolding runs all_word_chars
runs-IsWord String.[] = (refl, tt)
runs-IsWord (String.◌∷◌ c s) = elim (Bool-cases (is_word_char c)) [
  | inl y ↦ let ih = runs-IsWord s in rw y (all_word_chars-cons c (runs s).0 y ih.0, ih.1)
  | inr n ↦ let ih = runs-IsWord s in rw n (refl, with_word-IsWord (runs s).0 (runs s).1 ih.0 ih.1)
]

runs-put : (s : String) → put (runs s).0 (put_all (runs s).1) ≡ word_chars s
unfolding runs put put_all word_chars
runs-put String.[] = refl
runs-put (String.◌∷◌ c s) = elim (Bool-cases (is_word_char c)) [
  | inl y ↦ rw y (ap (λ t. String.◌∷◌ c t) (runs-put s))
  | inr n ↦ rw n (put_all-with_word (runs s).0 (runs s).1 ∙ runs-put s)
]

-- The words of a text are not empty and made of word characters, and one after the other they are the
-- text without all other characters.
pub words-IsWord : (s : String) → All IsWord (words s) × (put_all (words s) ≡ word_chars s)
unfolding words
words-IsWord s =
    let ih = runs-IsWord s in
    (
      with_word-IsWord (runs s).0 (runs s).1 ih.0 ih.1,
      put_all-with_word (runs s).0 (runs s).1 ∙ runs-put s,
    )
