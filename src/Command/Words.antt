-- ===== src/Command/Words.antt =====
-- The regular expressions of imageprocessor/processorcommand/ocrcommands.go, as the functions they
-- compute.
pub mod Runs
use Prim.Native.Char.{Char, code}
use mandible.Base.{ℕ, ◌+◌, String, Bool, ◌&&◌, ◌||◌, List, [], ◌∷◌, leb, ◌==◌, nat_eq}
use mandible.Base.{string_eq, if◌then◌else◌}

abbrev pub is_digit : Char → Bool
is_digit c = leb b'0' (code c) && leb (code c) b'9'

-- `\w`
abbrev pub is_word_char : Char → Bool
is_word_char c =
    is_digit c
    || (leb b'A' (code c) && leb (code c) b'Z')
    || (leb b'a' (code c) && leb (code c) b'z')
    || code c == b'_'

-- A word in front of others, if it has a character.
abbrev pub with_word : String → List String → List String
with_word w ws = if w == "" then ws else w ∷ ws

-- The word that a text begins with, and the words after it.
unfoldable pub runs : String → String × List String
runs String.[] = ("", [])
runs (String.◌∷◌ c s) =
    let (w, ws) = runs s in if is_word_char c then (String.◌∷◌ c w, ws) else ("", with_word w ws)

-- `\b(\w+)\b`, all matches: the longest runs of word characters.
unfoldable pub words : String → List String
unfolding runs
words s = let (w, ws) = runs s in with_word w ws

-- `\d{3,}`, with the digits read so far in a row.
unfoldable pub three_digits : ℕ → String → Bool
three_digits n String.[] = leb 3 n
three_digits n (String.◌∷◌ c s) = leb 3 n || three_digits (if is_digit c then n + 1 else 0) s

abbrev pub is_number : String → Bool
is_number = three_digits 0

-- `(a|i)` on a word of one character.
abbrev pub is_single_char_word : String → Bool
is_single_char_word w = w == "a" || w == "i"
