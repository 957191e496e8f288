-- ===== src/Store/Saves/Copies.antt =====
-- A `Save` of several stores in memory, in imagestore/store.go and memorystore.go.
use mathlib.Core.List.Permᴰ
use mathlib.Core.Path.{subst}
use mandible.Base.{ℕ, ◌<◌, String, ◌≡◌, refl, sym, ◌∙◌, ap, List, map, All, length}
use mandible.Base.Permuted.{unmap-Permᴰ, All-Permᴰ}
use mandible.Base.Result.{Result, ok, ⊤}
use mandible.Host.{Bytes}
use mandible.Store.Types.{StoreObject, World}
use mandible.Store.Single.{memory_store}
use mandible.Store.Multi.Copies.{Readable, Has, save-multi_store}
use mandible.Concurrent.Gather.{Caller}
use mandible.Store.Saves.{SaveSystem, save_start, SaveReach}
use mandible.Store.Saves.Orders.{SaveReach-multi_store}

-- In whichever way the goroutines take turns, a `Save` of a file that is there to several stores in
-- memory returns no error, and when it returns each of the stores has the object with the bytes of
-- the file.
pub SaveReach-Has :
    {C : Type 0} (src : String) (bytes : Bytes) (obj : StoreObject) (w : World C) (slots : List ℕ)
    (s : SaveSystem C) (r : Result ⊤)
    → Readable src bytes obj w
    → All (λ slot. slot < length w.memories) slots
    → SaveReach src (save_start src (map memory_store slots) obj w) s
    → s.caller ≡ Caller.returned r
    → (r ≡ ok tt) × All (Has src bytes obj s.shared.1) slots
SaveReach-Has src bytes obj w slots s r there fit reach c =
    let stores = map memory_store slots in
    let (ends, perm, gives, leaves) = SaveReach-multi_store src stores obj w s r reach c in
    let (ended, perm', same) = unmap-Permᴰ memory_store perm slots refl in
    let (saved, _, have) =
      save-multi_store src bytes obj (λ _ _. ends) slots ended w there
        (All-Permᴰ (λ slot. slot < length w.memories) perm' fit) same (Permᴰ.symm perm') in
    let fine = sym gives ∙ saved in
    (fine, subst (λ v. All (Has src bytes obj v) slots) (sym (ap (λ p. p.1) (leaves fine))) have)
