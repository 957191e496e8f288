-- ===== src/Store/Multi.antt =====
-- imagestore/store.go: several stores as one. The goroutines of a call are taken in the order in
-- which they end, as in `mandible.Process.Types`.
pub mod Copies
pub mod Schedules
use mandible.Base.{String, ◌<>◌, Bool, true, false, List, [], ◌∷◌, Option, none}
use mandible.Base.Result.{Result, ok, err, panic, ⊤}
use mandible.Store.Types.{StoreObject, Reader, World, ImageStore}

module _ {C : Type 0} where
  -- All goroutines write to the one object.
  unfoldable pub save_all :
      List (ImageStore C) → String → StoreObject → World C → Result ⊤ × StoreObject × World C
  save_all [] src obj w = (ok tt, obj, w)
  save_all (s ∷ stores) src obj w =
      let (r, obj', w') = s.save src obj w in
      elim r [
        | ok _ ↦ save_all stores src obj' w'
        | err e ↦
            (err ("Error asynchronously saving image on " <> (s.string <> (": " <> e))), obj', w')
        | panic ↦ (panic, obj', w')
      ]

  -- The first error or the first `true` is the answer.
  unfoldable pub exists_any : List (ImageStore C) → StoreObject → World C → Result Bool
  exists_any [] obj w = ok false
  exists_any (s ∷ stores) obj w = elim (s.exists obj w) [
    | ok true ↦ ok true
    | ok false ↦ exists_any stores obj w
    | err e ↦
        err ("Error asynchronously proving existance for image on " <> (s.string <> (": " <> e)))
    | panic ↦ panic
  ]

  -- The first reader is the answer, or else the last error; with no store at all, two nils.
  unfoldable pub get_first :
      List (ImageStore C) → Result (Option Reader) → StoreObject → World C → Result (Option Reader)
  get_first [] last obj w = last
  get_first (s ∷ stores) last obj w = elim (s.get obj w) [
    | ok r ↦ ok r
    | err e ↦
        get_first stores
          (err ("Error asynchronously getting image on " <> (s.string <> (": " <> e)))) obj w
    | panic ↦ panic
  ]

  unfoldable pub multi_string : List (ImageStore C) → String
  multi_string [] = ""
  multi_string (s ∷ stores) = s.string <> (" " <> multi_string stores)

  -- `order` is the order in which the goroutines end that are started in this world.
  abbrev pub multi_store :
      (World C → List (ImageStore C) → List (ImageStore C)) → List (ImageStore C) → ImageStore C
  multi_store order stores = record {
    save = λ src obj w. save_all (order w stores) src obj w;
    exists = λ obj w. exists_any (order w stores) obj w;
    get = λ obj w. get_first (order w stores) (ok none) obj w;
    string = multi_string stores;
  }
