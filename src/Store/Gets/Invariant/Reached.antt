-- ===== src/Store/Gets/Invariant/Reached.antt =====
-- Every state that a `Get` of several stores in imagestore/store.go reaches has the invariant.
use mathlib.Core.Path.{subst}
use mandible.Base.{sym, List}
use mandible.Store.Types.{StoreObject, World, ImageStore}
use mandible.Concurrent.Runs.{Run}
use mandible.Store.Gets.{GetSystem, GetStep, GetReach, get_start}
use mandible.Store.Gets.Invariant.{GetInv, GetInv-start}
use mandible.Store.Gets.Invariant.Goroutines.{
  GetInv-fails, GetInv-wins, GetInv-closes, GetInv-sends,
}
use mandible.Store.Gets.Invariant.Waiting.{GetInv-takes, GetInv-receives, GetInv-returns}

module _ {C : Type 0} (obj : StoreObject) (w : World C) (stores : List (ImageStore C)) where
  abbrev GetInvAt : GetSystem C → Type 0
  GetInvAt s = GetInv obj w stores s

  Step-GetInv : (s t : GetSystem C) → GetStep obj w s t → GetInvAt s → GetInvAt t
  Step-GetInv s t (GetStep.fails pre post store e a b same) inv =
      subst GetInvAt (sym same) (GetInv-fails obj w stores s pre post store e a b inv)
  Step-GetInv s t (GetStep.wins pre post store r a b c same) inv =
      subst GetInvAt (sym same) (GetInv-wins obj w stores s pre post store r a b c inv)
  Step-GetInv s t (GetStep.closes pre post store r a b c same) inv =
      subst GetInvAt (sym same) (GetInv-closes obj w stores s pre post store r a b c inv)
  Step-GetInv s t (GetStep.sends r a b same) inv =
      subst GetInvAt (sym same) (GetInv-sends obj w stores s r a b inv)
  Step-GetInv s t (GetStep.takes n last r a b same) inv =
      subst GetInvAt (sym same) (GetInv-takes obj w stores s n last r a b inv)
  Step-GetInv s t (GetStep.receives n last e es a b same) inv =
      subst GetInvAt (sym same) (GetInv-receives obj w stores s n last e es a b inv)
  Step-GetInv s t (GetStep.returns last a same) inv =
      subst GetInvAt (sym same) (GetInv-returns obj w stores s last a inv)

  pub GetReach-GetInv : (t : GetSystem C) → GetReach obj w (get_start stores) t → GetInvAt t
  GetReach-GetInv t Run.here = GetInv-start obj w stores
  GetReach-GetInv u (Run.next {t} reached step) = Step-GetInv t u step (GetReach-GetInv t reached)
