-- ===== src/Store/Keeps/Memory.antt =====
-- A store of imagestore/memorystore.go keeps what is saved in it.
use mandible.Base.{
  ℕ, ◌<◌, String, ◌≡◌, ◌≢◌, refl, sym, ◌∙◌, inl, inr, false, some, arith, length, ◌==◌, string_eq,
  eq_iff, Option-cases, Bool-cases,
}
use mandible.Base.Updates.{length-set}
use mandible.Base.Dict.{lookup, insert}
use mandible.Base.Result.{ok}
use mandible.Host.{Bytes}
use mandible.Store.Types.{StoreObject, World}
use mandible.Store.Keeps.{Keeps}
use mandible.Store.Single.{files, memory_save, memory_store, whole}
use mandible.Store.Single.Contents.{memory_save_lem, get-memory_save}

module _ {C : Type 0} (slot : ℕ) where
  abbrev pub HasSlot : World C → Type 0
  HasSlot w = slot < length w.memories

  -- The file was there.
  memory_save-found :
      (src : String) (obj : StoreObject) (w : World C)
      → (memory_save slot src obj w).0 ≡ ok tt
      → (bytes : Bytes) × (lookup src w.host.disk ≡ some bytes)
  unfolding memory_save
  memory_save-found src obj w saved = elim (Option-cases (lookup src w.host.disk)) [
    | inl missing ↦ absurd (ground (arith, saved, missing))
    | inr found ↦ found
  ]

  memory_save-names :
      (src : String) (obj : StoreObject) (w : World C) → (memory_save slot src obj w).1 ≡ obj
  unfolding memory_save
  memory_save-names src obj w = ground arith

  memory_save-host :
      (src : String) (obj : StoreObject) (w : World C)
      → (memory_save slot src obj w).2.host ≡ w.host
  unfolding memory_save
  memory_save-host src obj w = ground arith

  ready_lem :
      (src : String) (obj : StoreObject) (w : World C)
      → HasSlot w
      → (memory_save slot src obj w).0 ≡ ok tt
      → HasSlot (memory_save slot src obj w).2
  ready_lem src obj w ready saved =
      let (bytes, there) = memory_save-found src obj w saved in
      let memories = length-set w.memories slot (insert obj.id bytes (files slot w)) in
      rw (memory_save_lem src bytes obj w there slot) (omega (arith, ready, memories))

  get_save_lem :
      (src : String) (obj : StoreObject) (w : World C)
      → HasSlot w
      → (memory_save slot src obj w).0 ≡ ok tt
      → (bytes : Bytes) × (lookup src w.host.disk ≡ some bytes)
        × ((memory_store slot).get obj (memory_save slot src obj w).2 ≡ ok (some (whole bytes)))
  get_save_lem src obj w ready saved =
      let (bytes, there) = memory_save-found src obj w saved in
      let (_, _, get) = get-memory_save src bytes obj w there slot ready in
      (bytes, there, get obj ∙ ground (arith, eq_iff obj.id obj.id))

  get_other_lem :
      (src : String) (obj other : StoreObject) (w : World C)
      → HasSlot w
      → (memory_save slot src obj w).0 ≡ ok tt
      → other.id ≢ obj.id
      → (memory_store slot).get other (memory_save slot src obj w).2
        ≡ (memory_store slot).get other w
  get_other_lem src obj other w ready saved apart =
      let (bytes, there) = memory_save-found src obj w saved in
      let (_, _, get) = get-memory_save src bytes obj w there slot ready in
      let different : (obj.id == other.id) ≡ false = elim (Bool-cases (obj.id == other.id)) [
        | inl y ↦ absurd (apart (sym ((eq_iff obj.id other.id).0 y)))
        | inr n ↦ n
      ] in
      get other ∙ rw different refl

  -- A store in memory that is there keeps what is saved in it, under the object's identifier alone.
  pub memory_store-Keeps : Keeps (memory_store slot) (λ id size. id) HasSlot
  unfolding files
  memory_store-Keeps = record {
    get_key = λ a b w same. rw same refl;
    get_host = λ obj w h. refl;
    ready_host = λ w h ready. ready;
    ready_save = ready_lem;
    names = λ src obj w. rw (memory_save-names src obj w) refl;
    host_save = memory_save-host;
    get_save = get_save_lem;
    get_other = get_other_lem;
  }
