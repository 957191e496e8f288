-- ===== src/Store/Saves/Orders.antt =====
-- A `Save` of several stores in imagestore/store.go, and the saves one after the other.
use mathlib.Core.List.{Permᴰ}
use mandible.Base.{String, ◌≡◌, refl, sym, ◌∙◌, inl, inr, List, [], ◌∷◌, ◌++◌, arith}
use mandible.Base.Result.{Result, ok, ⊤, Result-cases}
use mandible.Store.Types.{StoreObject, World, ImageStore}
use mandible.Store.Multi.{save_all, multi_store}
use mandible.Concurrent.Gather.{Caller, messages, effects, consume, result}
use mandible.Concurrent.Gather.Progress.{Outcome-effects, outcome}
use mandible.Store.Saves.{
  save_goroutine, first_failure, no_failure, SaveSystem, save_start, SaveReach,
}

module _ {C : Type 0} (src : String) where
  save_all-result :
      (stores : List (ImageStore C)) (obj : StoreObject) (w : World C)
      → (save_all stores src obj w).0
        ≡ result no_failure
            (consume first_failure tt (messages (save_goroutine src) stores (obj, w)))
  unfolding save_all messages consume save_goroutine
  save_all-result [] obj w = refl
  save_all-result (s ∷ stores) obj w = elim (Result-cases (s.save src obj w).0) [
    | inl (_, e) ↦ ground (arith, save_all-result stores (s.save src obj w).1 (s.save src obj w).2)
    | inr (inl (x, e)) ↦ ground arith
    | inr (inr e) ↦ ground arith
  ]

  save_all-effects :
      (stores : List (ImageStore C)) (obj : StoreObject) (w : World C)
      → (save_all stores src obj w).0 ≡ ok tt
      → (((save_all stores src obj w).1, (save_all stores src obj w).2)
          ≡ effects (save_goroutine src) stores (obj, w))
        × (consume first_failure tt (messages (save_goroutine src) stores (obj, w)) ≡ inr tt)
  unfolding save_all messages consume effects save_goroutine
  save_all-effects [] obj w h = (refl, refl)
  save_all-effects (s ∷ stores) obj w h = elim (Result-cases (s.save src obj w).0) [
    | inl (_, e) ↦
        let (left, gathered) =
          save_all-effects stores (s.save src obj w).1 (s.save src obj w).2
            (rw (e, save_all) at h) in
        (ground (arith, left), ground (arith, gathered))
    | inr (inl (x, e)) ↦ absurd (ground arith)
    | inr (inr e) ↦ absurd (ground arith)
  ]

  -- In whichever way the goroutines and the caller take turns, `Save` returns what the saves give one
  -- after the other in some order; and if it returns without an error, it leaves the object and the
  -- world as they leave them in that order.
  pub SaveReach-multi_store :
      (stores : List (ImageStore C)) (obj : StoreObject) (w : World C) (s : SaveSystem C)
      (r : Result ⊤)
      → SaveReach src (save_start src stores obj w) s
      → s.caller ≡ Caller.returned r
      → (ends : List (ImageStore C)) × Permᴰ ends stores
        × (((multi_store (λ _ _. ends) stores).save src obj w).0 ≡ r)
        × (r ≡ ok tt
            → s.shared ≡ (
              ((multi_store (λ _ _. ends) stores).save src obj w).1,
              ((multi_store (λ _ _. ends) stores).save src obj w).2,
            ))
  SaveReach-multi_store stores obj w s r reach c =
      let o =
        outcome (save_goroutine src) first_failure no_failure stores tt (obj, w) s r reach c in
      let ends = o.ended ++ s.pending in
      let same = save_all-result ends obj w ∙ o.gives in
      (
        ends,
        o.all,
        same,
        λ fine.
            let (left, gathered) = save_all-effects ends obj w (same ∙ fine) in
            Outcome-effects (save_goroutine src) first_failure no_failure stores tt (obj, w) s r o
              tt gathered
            ∙ sym left,
      )
