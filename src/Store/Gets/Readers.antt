-- ===== src/Store/Gets/Readers.antt =====
-- The readers that the goroutines of a `Get` of several stores in imagestore/store.go open.
use mathlib.Core.List.{Permᴰ}
use mandible.Base.{
  ℕ, suc, ◌+◌, ◌≡◌, refl, ap, ◌∙◌, inl, inr, List, [], ◌∷◌, ◌++◌, Option, none, some, length, All,
  arith,
}
use mandible.Base.Result.{Error, Result, ok, err, panic}
use mandible.Store.Types.{StoreObject, Reader, World, ImageStore}
use mandible.Concurrent.Gather.{Caller}
use mandible.Store.Gets.{GetSystem, GetReach, get_start}
use mandible.Store.Gets.Invariant.{last_error, Fails, Gives, GetInv}
use mandible.Store.Gets.Invariant.Reached.{GetReach-GetInv}

module _ {C : Type 0} (obj : StoreObject) (w : World C) where
  abbrev opens : ImageStore C → ℕ
  opens store = elim (store.get obj w) [ ok _ ↦ 1 | err _ ↦ 0 | panic ↦ 0 ]

  -- How many of the stores give a reader.
  unfoldable pub opened : List (ImageStore C) → ℕ
  opened [] = 0
  opened (store ∷ stores) = opens store + opened stores

  opened-append : (xs ys : List (ImageStore C)) → opened (xs ++ ys) ≡ opened xs + opened ys
  unfolding opened
  opened-append [] ys = omega arith
  opened-append (x ∷ xs) ys = omega (arith, opened-append xs ys)

  opened-Permᴰ : {xs ys : List (ImageStore C)} → Permᴰ xs ys → opened xs ≡ opened ys
  unfolding opened
  opened-Permᴰ Permᴰ.nil = refl
  opened-Permᴰ (Permᴰ.cons e p) = omega (arith, ap opens e, opened-Permᴰ p)
  opened-Permᴰ (Permᴰ.swap e f) = omega (arith, ap opens e, ap opens f)
  opened-Permᴰ (Permᴰ.trans p q) = opened-Permᴰ p ∙ opened-Permᴰ q

module _ {C : Type 0} (obj : StoreObject) (w : World C) (stores : List (ImageStore C)) where
  opened-Fails : (xs : List (ImageStore C)) → All (Fails obj w stores) xs → opened obj w xs ≡ 0
  unfolding opened
  opened-Fails [] all = refl
  opened-Fails (x ∷ xs) ((e, g), all) = ground (arith, g, opened-Fails xs all)

  opened-Gives :
      (xs : List (ImageStore C)) → All (Gives obj w stores) xs → opened obj w xs ≡ length xs
  unfolding opened
  opened-Gives [] all = refl
  opened-Gives (x ∷ xs) ((r, g), all) = ground (arith, g, opened-Gives xs all)

  opened-given :
      (s : GetSystem C) (inv : GetInv obj w stores s)
      → opened obj w stores ≡ length inv.given + opened obj w s.pending
  opened-given s inv = omega (
    arith,
    opened-Permᴰ obj w inv.all,
    opened-append obj w inv.failed (inv.given ++ s.pending),
    opened-append obj w inv.given s.pending,
    opened-Fails inv.failed inv.fail,
    opened-Gives inv.given inv.give,
  )

  -- A received error is no reader.
  last_error-some :
      (last : Result (Option Reader)) (es : List Error) (r : Reader)
      → last_error last es ≡ ok (some r)
      → last ≡ ok (some r)
  unfolding last_error
  last_error-some last [] r h = h
  last_error-some last (e ∷ es) r h = absurd (cc (last_error-some (err e) es r h))

  -- Of the readers that the stores give, a `Get` that returns a reader leaves this one open: in every
  -- state in which it has returned one, all others are closed, but those of the goroutines that have
  -- not ended.
  pub GetReach-closed :
      (s : GetSystem C) (r : Reader)
      → GetReach obj w (get_start stores) s
      → s.caller ≡ Caller.returned (ok (some r))
      → suc s.closed + opened obj w s.pending ≡ opened obj w stores
  GetReach-closed s r reached c =
      let inv = GetReach-GetInv obj w stores s reached in
      let total = opened-given s inv in
      elim inv.call [
        | inl (_, waits, _) ↦ absurd (cc (c, waits))
        | inr (inl (_, _, dn, _, _)) ↦ elim inv.stage [
          | inl (still, _, _, _, _) ↦ absurd (cc (dn, still))
          | inr (first, rest, _, _, g, _, count, _) ↦ omega (arith, total, count, ap length g)
        ]
        | inr (inr (lost, _)) ↦
            absurd (cc (last_error-some (ok none) inv.received r (cc (lost, c))))
      ]
