-- ===== src/Store/Hash/Known.antt =====
-- What imagestore/hash.go takes for a free name when the store is several stores.
use mandible.Base.{ℕ, String, ◌≡◌, false, List, ◌∷◌, arith}
use mandible.Base.Result.{err}
use mandible.Store.Types.{World, ImageStore, new_store_object}
use mandible.Store.Multi.{exists_any, multi_store}
use mandible.Store.Hash.{taken}

-- If the store that answers first fails, a name counts as free, whatever the other stores have.
pub taken-multi_store :
    {C : Type 0} (order : World C → List (ImageStore C) → List (ImageStore C))
    (stores rest : List (ImageStore C)) (first : ImageStore C) (name_of : List ℕ → String)
    (name e : String) (w : World C)
    → order w stores ≡ first ∷ rest
    → first.exists (new_store_object name "" "original") w ≡ err e
    → taken (multi_store order stores) name_of name w ≡ false
unfolding exists_any
taken-multi_store order stores rest first name_of name e w o f = rw (taken, o) (ground arith)
