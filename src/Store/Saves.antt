-- ===== src/Store/Saves.antt =====
-- imagestore/store.go: the method `Save` of MultiImageStore, with its goroutines.
pub mod Orders
pub mod Copies
use mandible.Base.{String, ◌<>◌, List, ◌⊎◌, inl, inr}
use mandible.Base.Result.{Result, ok, err, panic, ⊤}
use mandible.Store.Types.{StoreObject, World, ImageStore}
use mandible.Concurrent.Gather.{System, Reach, start}

-- What the goroutines share: the one object, and the world.
abbrev pub Shared : Type 0 → Type 0
Shared C = StoreObject × World C

-- The body of a goroutine: the `Save` of a store, and the message that it sends.
unfoldable pub save_goroutine :
    {C : Type 0} → String → ImageStore C → Shared C → Result ⊤ × Shared C
save_goroutine src s (obj, w) =
    let (r, obj', w') = s.save src obj w in
    (
      elim r [
        | ok _ ↦ ok tt
        | err e ↦ err ("Error asynchronously saving image on " <> (s.string <> (": " <> e)))
        | panic ↦ panic
      ],
      (obj', w'),
    )

-- The body of the loop: the first error is returned.
abbrev pub first_failure : ⊤ → Result ⊤ → Result ⊤ ⊎ ⊤
first_failure _ (ok _) = inr tt
first_failure _ (err e) = inl (err e)
first_failure _ panic = inl panic

abbrev pub no_failure : ⊤ → Result ⊤
no_failure _ = ok tt

abbrev pub SaveSystem : Type 0 → Type 0
SaveSystem C = System (Shared C) (ImageStore C) (Result ⊤) ⊤ (Result ⊤)

module _ {C : Type 0} (src : String) where
  -- The goroutines of these stores have been started.
  abbrev pub save_start : List (ImageStore C) → StoreObject → World C → SaveSystem C
  save_start stores obj w = start (save_goroutine src) first_failure no_failure stores tt (obj, w)

  abbrev pub SaveReach : SaveSystem C → SaveSystem C → Type 0
  SaveReach = Reach (save_goroutine src) first_failure no_failure
