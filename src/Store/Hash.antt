-- ===== src/Store/Hash.antt =====
-- imagestore/hash.go: names for new images, from random bytes.

pub mod Names
pub mod Known
pub mod Generator
use mandible.Base.{
  ℕ, zero, suc, ◌/◌, String, Bool, true, false, ◌&&◌, ◌||◌, List, [], ◌∷◌, ◌++◌, Option, none, some,
}
use mandible.Base.{leb, ◌==◌, nat_eq, length, if◌then◌else◌}
use mandible.Base.Int.{ℤ, pos, ltb_ℤ, int_eq}
use mandible.Base.Result.{ok, err, panic}
use mandible.Store.Types.{World, ImageStore, new_store_object}

-- 0-9, A-Z and a-z
abbrev pub is_allowable : ℕ → Bool
is_allowable b = (leb 48 b && leb b 57) || (leb 65 b && leb b 90) || (leb 97 b && leb b 122)

-- The loop over the bytes of one draw; a name is the list of its bytes.
unfoldable pub take_bytes : ℤ → List ℕ → List ℕ → List ℕ
take_bytes len str [] = str
take_bytes len str (b ∷ bs) =
    let b' = b / 2 in
    let more = take_bytes len (if is_allowable b' then str ++ (b' ∷ []) else str) bs in
    if pos (length str) == len then str else more

-- `for len(str) < this.length`, over the draws that `rand.Read` makes; `none` is a draw that fails,
-- which ends the loop with the name as it is. Without a further draw the loop has not ended.
unfoldable pub draw_name :
    ℤ → List ℕ → List (Option (List ℕ)) → Option (List ℕ × List (Option (List ℕ)))
unfolding take_bytes
draw_name len str [] = if ltb_ℤ (pos (length str)) len then none else some (str, [])
draw_name len str (none ∷ draws) =
    if ltb_ℤ (pos (length str)) len then some (str, draws) else some (str, none ∷ draws)
draw_name len str (some bytes ∷ draws) =
    let rest = draw_name len (take_bytes len str bytes) draws in
    if ltb_ℤ (pos (length str)) len then rest else some (str, some bytes ∷ draws)

module _ {C : Type 0} (store : ImageStore C) (name_of : List ℕ → String) where
  -- `exists, _ := this.store.Exists(storeObj)`: an error counts as `false`.
  abbrev pub taken : String → World C → Bool
  taken name w = elim (store.exists (new_store_object name "" "original") w) [
    | ok b ↦ b
    | err _ ↦ false
    | panic ↦ false
  ]

  -- The rounds of the goroutine up to the one that sends; `w` is the world in each.
  unfoldable pub next_hash :
      ℕ → ℤ → List (Option (List ℕ)) → World C → Option (String × List (Option (List ℕ)))
  unfolding draw_name
  next_hash zero len draws w = none
  next_hash (suc rounds) len draws w = elim (draw_name len [] draws) [
    | none ↦ none
    | some (str, draws') ↦ elim (taken (name_of str) w) [
      | true ↦ next_hash rounds len draws' w
      | false ↦ some (name_of str, draws')
    ]
  ]
