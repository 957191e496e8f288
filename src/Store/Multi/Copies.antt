-- ===== src/Store/Multi/Copies.antt =====
-- What a `Save` of several stores in memory leaves in each of them.
use mathlib.Core.Path.{subst}
use mathlib.Core.List.{Permᴰ}
use mandible.Base.{
  ℕ, ◌<◌, String, ◌≡◌, sym, ap, ◌≢◌, refl, ◌∙◌, List, [], ◌∷◌, some, map, arith, All, length, set,
  ◌==◌, nat_eq, Bool-cases, inl, inr, eq_iff,
}
use mandible.Base.Updates.{get_elem?-set_other, length-set}
use mandible.Base.Permuted.{All-Permᴰ}
use mandible.Base.Dict.{Dict, lookup, insert, lookup-insert}
use mandible.Base.Result.{Result, ok, ⊤}
use mandible.Host.{Bytes, Host}
use mandible.Store.Types.{StoreObject, World, ImageStore}
use mandible.Store.Single.{files, memory_save, memory_store}
use mandible.Store.Single.Contents.{memory_save_lem, files-set}
use mandible.Store.Multi.{save_all, multi_store}

module _ {C : Type 0} (src : String) (bytes : Bytes) (obj : StoreObject) where
  -- The source file is there, with these bytes.
  abbrev pub Readable : World C → Type 0
  Readable w = lookup src w.host.disk ≡ some bytes

  abbrev pub Has : World C → ℕ → Type 0
  Has w slot = lookup obj.id (files slot w) ≡ some bytes

  files-set_other :
      (slot other : ℕ) (w : World C) (d : Dict Bytes)
      → slot ≢ other
      → files other (record w { memories = set w.memories slot d }) ≡ files other w
  unfolding files
  files-set_other slot other w d n = ground (arith, get_elem?-set_other w.memories slot other d n)

  memory_save-Has :
      (slot : ℕ) (w : World C)
      → Readable w
      → slot < length w.memories
      → let (r, obj', w') = memory_save slot src obj w in
        (r ≡ ok tt)
        × (obj' ≡ obj)
        × (w'.host ≡ w.host)
        × (length w'.memories ≡ length w.memories)
        × Has w' slot
        × ((other : ℕ) → Has w other → Has w' other)
  memory_save-Has slot w there fits =
      let d = insert obj.id bytes (files slot w) in
      let w' = record w { memories = set w.memories slot d } in
      let saved : Has w' slot =
        ap (lookup obj.id) (files-set src bytes obj w there slot d fits)
        ∙ ground (arith, lookup-insert obj.id obj.id bytes (files slot w), eq_iff obj.id obj.id) in
      rw (memory_save_lem src bytes obj w there slot) (
        refl,
        refl,
        refl,
        length-set w.memories slot d,
        saved,
        λ other has. elim (Bool-cases (slot == other)) [
          | inl y ↦ subst (Has w') (ground arith) saved
          | inr n ↦ ap (lookup obj.id) (files-set_other slot other w d (ground arith)) ∙ has
        ],
      )

  save_all-saved :
      (s : ImageStore C) (stores : List (ImageStore C)) (w : World C)
      → (s.save src obj w).0 ≡ ok tt
      → (s.save src obj w).1 ≡ obj
      → save_all (s ∷ stores) src obj w ≡ save_all stores src obj (s.save src obj w).2
  unfolding save_all
  save_all-saved s stores w saved same = ground (arith, saved, same)

  -- What a `Save` of the stores with these numbers, from a world on, leaves.
  abbrev IsSaved : List ℕ → World C → Result ⊤ × StoreObject × World C → Type 0
  IsSaved slots w (r, obj', w') =
      (r ≡ ok tt) × (obj' ≡ obj) × All (Has w') slots × ((other : ℕ) → Has w other → Has w' other)

  save_all-IsSaved :
      (slots : List ℕ) (w : World C)
      → Readable w
      → All (λ slot. slot < length w.memories) slots
      → IsSaved slots w (save_all (map memory_store slots) src obj w)
  unfolding save_all
  save_all-IsSaved [] w there fit = (refl, refl, tt, λ other has. has)
  save_all-IsSaved (slot ∷ slots) w there (fits, fit) =
      let (saved, same, host, count, here, kept) = memory_save-Has slot w there fits in
      let w' = (memory_save slot src obj w).2 in
      let (all_saved, all_same, all_have, all_kept) =
        save_all-IsSaved slots w' (ap (λ (h : Host). lookup src h.disk) host ∙ there)
          (subst (λ n. All (λ i. i < n) slots) (sym count) fit) in
      subst (IsSaved (slot ∷ slots) w)
        (sym (save_all-saved (memory_store slot) (map memory_store slots) w saved same))
        (
          all_saved,
          all_same,
          (all_kept slot here, all_have),
          λ other has. all_kept other (kept other has),
        )

  -- A `Save` of several stores in memory, in whichever order they end, succeeds if the file is there,
  -- and afterwards each of the stores has the object with the bytes of the file.
  pub save-multi_store :
      (order : World C → List (ImageStore C) → List (ImageStore C)) (slots ends : List ℕ)
      (w : World C)
      → Readable w
      → All (λ slot. slot < length w.memories) ends
      → order w (map memory_store slots) ≡ map memory_store ends
      → Permᴰ slots ends
      → let (r, obj', w') = (multi_store order (map memory_store slots)).save src obj w in
        (r ≡ ok tt) × (obj' ≡ obj) × All (Has w') slots
  save-multi_store order slots ends w there fit ordered perm =
      let (saved, same, have, _) = save_all-IsSaved ends w there fit in
      rw ordered
        (saved, same, All-Permᴰ (Has (save_all (map memory_store ends) src obj w).2) perm have)
