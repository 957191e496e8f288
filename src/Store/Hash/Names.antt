-- ===== src/Store/Hash/Names.antt =====
-- The names that imagestore/hash.go makes.
use Prim.Native.Nat.{min}
use mandible.Base.{
  Option-cases, sym, ℕ, zero, suc, ◌+◌, ◌≤◌, ◌<◌, ◌/◌, String, ◌≡◌, ◌≢◌, ◌⊎◌, Bool, true, false,
  List, [], ◌∷◌, ◌++◌, Option, none, some, arith,
}
use mandible.Base.{
  length, All, All-append, length-append, all, inl, inr, Bool-cases, ◌==◌, nat_eq, if◌then◌else◌,
}
use mandible.Base.Int.{pos, int_eq}
use mandible.Store.Types.{World, ImageStore}
use mandible.Store.Hash.{is_allowable, take_bytes, draw_name, taken, next_hash}

-- The ASCII code of a digit, of a capital, or of a small letter.
abbrev pub IsLetterOrDigit : ℕ → Type 0
IsLetterOrDigit b = ((48 ≤ b) × (b ≤ 57)) ⊎ (((65 ≤ b) × (b ≤ 90)) ⊎ ((97 ≤ b) × (b ≤ 122)))

is_allowable-IsLetterOrDigit : (b : ℕ) → is_allowable b ≡ true → IsLetterOrDigit b
is_allowable-IsLetterOrDigit b h = ground arith

-- A name of at most `n` letters and digits.
pub record IsName (n : ℕ) (str : List ℕ) : Type 0 where
  pub characters : All IsLetterOrDigit str
  pub short : length str ≤ n

IsName-append :
    (n b : ℕ) (str : List ℕ)
    → IsLetterOrDigit b
    → length str < n
    → IsName n str
    → IsName n (str ++ (b ∷ []))
IsName-append n b str a l h = record {
  characters = All-append IsLetterOrDigit str (b ∷ []) h.characters (a, tt);
  short = omega (arith, h.short, length-append {0} str (b ∷ []));
}

take_bytes-IsName :
    (n : ℕ) (str bytes : List ℕ) → IsName n str → IsName n (take_bytes (pos n) str bytes)
unfolding take_bytes
take_bytes-IsName n str [] h = h
take_bytes-IsName n str (b ∷ bs) h = elim (Bool-cases (pos (length str) == pos n)) [
  | inl e ↦ rw e h
  | inr e ↦ rw e (elim (Bool-cases (is_allowable (b / 2))) [
    | inl a ↦ rw a (
        take_bytes-IsName n (str ++ (b / 2 ∷ [])) bs
          (IsName-append n (b / 2) str (is_allowable-IsLetterOrDigit (b / 2) a) (ground arith) h))
    | inr a ↦ rw a (take_bytes-IsName n str bs h)
  ])
]

abbrev is_made : Option (List ℕ) → Bool
is_made none = false
is_made (some _) = true

-- What the bytes drawn so far have made stays a name, and where no draw fails the name has all its
-- characters.
draw_name-IsName_onto :
    (n : ℕ) (str : List ℕ) (draws : List (Option (List ℕ))) (str' : List ℕ)
    (rest : List (Option (List ℕ)))
    → IsName n str
    → draw_name (pos n) str draws ≡ some (str', rest)
    → IsName n str' × (all is_made draws ≡ true → length str' ≡ n)
unfolding draw_name
draw_name-IsName_onto n str [] out rest k h = ground arith
draw_name-IsName_onto n str (none ∷ draws) out rest k h = ground arith
draw_name-IsName_onto n str (some bytes ∷ draws) out rest k h = ground (
  arith,
  draw_name-IsName_onto n (take_bytes (pos n) str bytes) draws out rest
      (take_bytes-IsName n str bytes k),
)

-- Every name that is drawn is made of letters and digits, and is no longer than it should be. Where
-- no draw of random bytes fails it is exactly as long as it should be.
pub draw_name-IsName :
    (n : ℕ) (draws : List (Option (List ℕ))) {str : List ℕ} {rest : List (Option (List ℕ))}
    → draw_name (pos n) [] draws ≡ some (str, rest)
    → IsName n str × (all is_made draws ≡ true → length str ≡ n)
draw_name-IsName n draws {str} {rest} h =
    draw_name-IsName_onto n [] draws str rest (record { characters = tt; short = omega arith }) h

-- The bytes of a draw that give a character.
abbrev usable : List ℕ → ℕ
usable [] = 0
usable (b ∷ bs) = (if is_allowable (b / 2) then 1 else 0) + usable bs

abbrev pub supply : List (Option (List ℕ)) → ℕ
supply [] = 0
supply (none ∷ draws) = supply draws
supply (some bytes ∷ draws) = usable bytes + supply draws

length-take_bytes :
    (n : ℕ) (str bytes : List ℕ)
    → length str ≤ n
    → length (take_bytes (pos n) str bytes) ≡ min n (length str + usable bytes)
unfolding take_bytes
length-take_bytes n str [] h = omega arith
length-take_bytes n str (b ∷ bs) h = ground (
  arith,
  length-append {0} str (b / 2 ∷ []),
  length-take_bytes n (str ++ (b / 2 ∷ [])) bs,
  length-take_bytes n str bs,
)

draw_name_total_onto :
    (n : ℕ) (str : List ℕ) (draws : List (Option (List ℕ)))
    → length str ≤ n
    → n ≤ length str + supply draws
    → draw_name (pos n) str draws ≢ none
unfolding draw_name
draw_name_total_onto n str [] k h = ground arith
draw_name_total_onto n str (none ∷ draws) k h = ground arith
draw_name_total_onto n str (some bytes ∷ draws) k h = ground (
  arith,
  length-take_bytes n str bytes,
  draw_name_total_onto n (take_bytes (pos n) str bytes) draws,
)

-- The loop ends once the draws have brought as many usable bytes as the name has characters.
pub draw_name_total :
    (n : ℕ) (draws : List (Option (List ℕ))) → n ≤ supply draws → draw_name (pos n) [] draws ≢ none
draw_name_total n draws h = draw_name_total_onto n [] draws (omega arith) (omega arith)

module _ {C : Type 0} (store : ImageStore C) (name_of : List ℕ → String) (w : World C) where
  -- A hash that the generator sends is a name, and the store did not say that it has it when it was
  -- asked.
  pub next_hash-IsName :
      (rounds n : ℕ) (draws : List (Option (List ℕ))) {hash : String}
      {rest : List (Option (List ℕ))}
      → next_hash store name_of rounds (pos n) draws w ≡ some (hash, rest)
      → (str : List ℕ) × (hash ≡ name_of str) × IsName n str × (taken store name_of hash w ≡ false)
  unfolding next_hash
  next_hash-IsName zero n draws h = ground arith
  next_hash-IsName (suc rounds) n draws {hash} {rest} h =
      elim (Option-cases (draw_name (pos n) [] draws)) [
        | inl e ↦ ground arith
        | inr ((str, draws'), e) ↦ elim (Bool-cases (taken store name_of (name_of str) w)) [
          | inl known ↦ next_hash-IsName rounds n draws' {hash = hash} {rest = rest} (ground arith)
          | inr free ↦ (str, sym (ground arith), (draw_name-IsName n draws e).0, ground arith)
        ]
      ]
