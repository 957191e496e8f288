-- ===== src/Store/Gets/Orders.antt =====
-- A `Get` of several stores in imagestore/store.go, and the stores asked one after the other.
use mathlib.Core.List.{Permᴰ, append-nil}
use mandible.Base.{
  ◌+◌, ◌≡◌, refl, ap, sym, ◌∙◌, inl, inr, List, [], ◌∷◌, ◌++◌, Option, none, length, length-append,
  map, All, arith, nil-of_length,
}
use mandible.Base.Permuted.{length-Permᴰ}
use mandible.Base.Result.{Result, ok, err}
use mandible.Store.Types.{StoreObject, Reader, World, ImageStore}
use mandible.Store.Multi.{get_first, multi_store}
use mandible.Concurrent.Gather.{Caller}
use mandible.Store.Gets.{GetSystem, loss, GetReach, get_start}
use mandible.Store.Gets.Invariant.{last_error, loss_of, loss_of-loss, Fails, GetInv}
use mandible.Store.Gets.Invariant.Reached.{GetReach-GetInv}

pub length-map : {A B : Type 0} (f : A → B) (xs : List A) → length (map f xs) ≡ length xs
length-map f [] = refl
length-map f (x ∷ xs) = omega (arith, length-map f xs)

module _ {C : Type 0} (obj : StoreObject) (w : World C) (stores : List (ImageStore C)) where
  -- The stores that fail leave their error only.
  get_first-Fails :
      (failed rest : List (ImageStore C)) (last : Result (Option Reader))
      → All (Fails obj w stores) failed
      → get_first (failed ++ rest) last obj w
        ≡ get_first rest (last_error last (map (loss_of obj w stores) failed)) obj w
  unfolding get_first last_error
  get_first-Fails [] rest last all = refl
  get_first-Fails (s ∷ failed) rest last ((e, g), all) = rw g (
      get_first-Fails failed rest (err (loss s e)) all
      ∙ ap (λ m. get_first rest (last_error (err m) (map (loss_of obj w stores) failed)) obj w)
          (sym (loss_of-loss obj w stores s e g)))

  get_first-ok :
      (first : ImageStore C) (rest : List (ImageStore C)) (last : Result (Option Reader))
      (r : Option Reader)
      → first.get obj w ≡ ok r
      → get_first (first ∷ rest) last obj w ≡ ok r
  unfolding get_first
  get_first-ok first rest last r g = rw g refl

  -- Once as many errors have been received as there are stores, all have failed.
  all-Fails :
      (s : GetSystem C) (inv : GetInv obj w stores s)
      → length inv.received ≡ length stores
      → (inv.given ≡ []) × (s.pending ≡ []) × (s.errs ≡ [])
  all-Fails s inv count =
      let sizes : (length inv.failed + length s.errs) + (length inv.given + length s.pending)
          ≡ length inv.failed =
        omega (
          arith,
          count,
          length-Permᴰ inv.all,
          length-append {0} inv.failed (inv.given ++ s.pending),
          length-append {0} inv.given s.pending,
          ap length inv.sent,
          length-append {0} inv.received s.errs,
          length-map (loss_of obj w stores) inv.failed,
        ) in
      (
        nil-of_length inv.given (omega (arith, sizes)),
        nil-of_length s.pending (omega (arith, sizes)),
        nil-of_length s.errs (omega (arith, sizes)),
      )

  -- What the stores give that are asked in the order in which they have ended.
  abbrev pub asked : (s : GetSystem C) → GetInv obj w stores s → Result (Option Reader)
  asked s inv = get_first (inv.failed ++ (inv.given ++ s.pending)) (ok none) obj w

  asked-given :
      (s : GetSystem C) (inv : GetInv obj w stores s) (first : ImageStore C)
      (rest : List (ImageStore C)) (r : Option Reader)
      → inv.given ≡ first ∷ rest
      → first.get obj w ≡ ok r
      → asked s inv ≡ ok r
  asked-given s inv first rest r g k =
      get_first-Fails inv.failed (inv.given ++ s.pending) (ok none) inv.fail
      ∙ rw g (get_first-ok first (rest ++ s.pending) _ r k)

  asked-lost :
      (s : GetSystem C) (inv : GetInv obj w stores s)
      → length inv.received ≡ length stores
      → asked s inv ≡ last_error (ok none) inv.received
  unfolding get_first
  asked-lost s inv count =
      let (a, b, c) = all-Fails s inv count in
      get_first-Fails inv.failed (inv.given ++ s.pending) (ok none) inv.fail
      ∙ rw (a, b)
          (ap (last_error (ok none))
            (inv.sent ∙ (ap (λ l. inv.received ++ l) c ∙ append-nil inv.received)))

  asked-returned :
      (s : GetSystem C) (inv : GetInv obj w stores s) (x : Result (Option Reader))
      → s.caller ≡ Caller.returned x
      → asked s inv ≡ x
  asked-returned s inv x c = elim inv.call [
    | inl (_, waits, _) ↦ absurd (cc (c, waits))
    | inr (inl (r, back, dn, won, sent)) ↦ elim inv.stage [
      | inl (still, _, _, _, _) ↦ absurd (cc (dn, still))
      | inr (_, _, q, _, _, _, _, inl (won', _)) ↦ absurd (cc (won, won'))
      | inr (_, _, q, _, _, _, _, inr (inl (_, sent'))) ↦ absurd (cc (sent, sent'))
      | inr (first, rest, q, _, g, k, _, inr (inr (_, _, at))) ↦
          asked-given s inv first rest q g k ∙ cc (c, at)
    ]
    | inr (inr (lost, count)) ↦ asked-lost s inv count ∙ cc (c, lost)
  ]

  -- In whichever way the goroutines and the caller take turns, `Get` returns what the stores give that
  -- are asked one after the other in some order.
  pub GetReach-multi_store :
      (s : GetSystem C) (x : Result (Option Reader))
      → GetReach obj w (get_start stores) s
      → s.caller ≡ Caller.returned x
      → (ends : List (ImageStore C)) × Permᴰ ends stores
        × ((multi_store (λ _ _. ends) stores).get obj w ≡ x)
  GetReach-multi_store s x reached c =
      let inv = GetReach-GetInv obj w stores s reached in
      (inv.failed ++ (inv.given ++ s.pending), inv.all, asked-returned s inv x c)
