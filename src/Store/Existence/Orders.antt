-- ===== src/Store/Existence/Orders.antt =====
-- An `Exists` of several stores in imagestore/store.go, and the stores asked one after the other.
use mathlib.Core.Path.{subst}
use mathlib.Core.List.{Permᴰ}
use mandible.Base.{◌≡◌, sym, ◌∙◌, inl, inr, List, Bool}
use mandible.Base.Result.{Result}
use mandible.Store.Types.{StoreObject, World, ImageStore}
use mandible.Store.Multi.{multi_store}
use mandible.Concurrent.Gather.{Caller}
use mandible.Concurrent.Runs.{Run}
use mandible.Store.Existence.{ExistsSystem, ExistsStep, ExistsReach, exists_start}
use mandible.Store.Existence.Invariant.{
  Waits, Decided, ExistsInv, Waits-start, Waits-fails, Waits-answers,
}
use mandible.Store.Existence.Taking.{Decided-error, Decided-true, Decided-false, Waits-false}

module _ {C : Type 0} (obj : StoreObject) (w : World C) (stores : List (ImageStore C)) where
  abbrev InvAt : ExistsSystem C → Type 0
  InvAt s = ExistsInv obj w stores s

  Waits-ExistsStep : (s t : ExistsSystem C) → ExistsStep obj w s t → Waits obj w stores s → InvAt t
  Waits-ExistsStep s t (ExistsStep.fails pre post store e p g same) inv =
      subst InvAt (sym same) (inl (Waits-fails obj w stores s pre post store e p g inv))
  Waits-ExistsStep s t (ExistsStep.answers pre post store r p g same) inv =
      subst InvAt (sym same) (inl (Waits-answers obj w stores s pre post store r p g inv))
  Waits-ExistsStep s t (ExistsStep.takes_error n e es c sent same) inv =
      subst InvAt (sym same) (inr (Decided-error obj w stores s e es sent inv))
  Waits-ExistsStep s t (ExistsStep.takes_true n rs c sent same) inv =
      subst InvAt (sym same) (inr (Decided-true obj w stores s rs sent inv))
  Waits-ExistsStep s t (ExistsStep.takes_false n rs c sent same) inv =
      subst InvAt (sym same) (inl (Waits-false obj w stores s n rs c sent inv))
  Waits-ExistsStep s t (ExistsStep.returns c same) inv =
      subst InvAt (sym same) (inr (Decided-false obj w stores s c inv))

  -- A caller that has returned does nothing more.
  Decided-ExistsStep :
      (s t : ExistsSystem C) → ExistsStep obj w s t → Decided obj w stores s → InvAt t
  Decided-ExistsStep s t (ExistsStep.fails pre post store e p g same) d =
      subst InvAt (sym same) (inr d)
  Decided-ExistsStep s t (ExistsStep.answers pre post store r p g same) d =
      subst InvAt (sym same) (inr d)
  Decided-ExistsStep s t (ExistsStep.takes_error n e es c sent same) (x, back, _, _, _) =
      absurd (cc (c, back))
  Decided-ExistsStep s t (ExistsStep.takes_true n rs c sent same) (x, back, _, _, _) =
      absurd (cc (c, back))
  Decided-ExistsStep s t (ExistsStep.takes_false n rs c sent same) (x, back, _, _, _) =
      absurd (cc (c, back))
  Decided-ExistsStep s t (ExistsStep.returns c same) (x, back, _, _, _) = absurd (cc (c, back))

  pub ExistsReach-ExistsInv :
      (t : ExistsSystem C) → ExistsReach obj w (exists_start stores) t → InvAt t
  ExistsReach-ExistsInv t Run.here = inl (Waits-start obj w stores)
  ExistsReach-ExistsInv u (Run.next {t} reached step) = elim (ExistsReach-ExistsInv t reached) [
    | inl inv ↦ Waits-ExistsStep t u step inv
    | inr d ↦ Decided-ExistsStep t u step d
  ]

  -- In whichever way the goroutines and the caller take turns, and from whichever of the two channels
  -- it takes the next message, `Exists` returns what the stores give that are asked one after the
  -- other in some order.
  pub ExistsReach-multi_store :
      (s : ExistsSystem C) (x : Result Bool)
      → ExistsReach obj w (exists_start stores) s
      → s.caller ≡ Caller.returned x
      → (ends : List (ImageStore C)) × Permᴰ ends stores
        × ((multi_store (λ _ _. ends) stores).exists obj w ≡ x)
  ExistsReach-multi_store s x reached c = elim (ExistsReach-ExistsInv s reached) [
    | inl inv ↦ absurd (cc (c, inv.waiting))
    | inr (y, back, ends, all, same) ↦ (ends, all, same ∙ cc (c, back))
  ]
