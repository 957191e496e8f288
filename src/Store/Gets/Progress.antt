-- ===== src/Store/Gets/Progress.antt =====
-- The caller of a `Get` of several stores in imagestore/store.go always returns.

use mathlib.Core.Path.{subst}
use mandible.Base.{
  ℕ, zero, suc, ◌+◌, ◌*◌, ◌≤◌, ◌<◌, ◌≡◌, refl, ap, ◌⊎◌, inl, inr, List, [], ◌∷◌, ◌++◌, Bool-cases,
  Option-cases, Option, none, some, length, length-append, All, All-right, arith, List-cases,
}
use mandible.Base.Permuted.{length-Permᴰ, All-Permᴰ}
use mandible.Base.Result.{Error, Result, ok, err}
use mandible.Store.Types.{StoreObject, Reader, World, ImageStore}
use mandible.Concurrent.Gather.{Caller, Caller-cases, open_call}
use mandible.Concurrent.Runs.{steps, steps-rank, ends_lem}
use mandible.Store.Gets.{GetSystem, GetStep, GetReach, get_start, loss}
use mandible.Store.Gets.Invariant.{loss_of, GetInv}
use mandible.Store.Gets.Invariant.Waiting.{Call-waiting}
use mandible.Store.Gets.Invariant.Reached.{GetReach-GetInv}
use mandible.Store.Gets.Orders.{length-map}

abbrev filled : {A : Type 0} → Option A → ℕ
filled none = 0
filled (some _) = 1

-- The steps that can still follow.
abbrev get_rank : {C : Type 0} → GetSystem C → ℕ
get_rank s =
    3 * length s.pending
    + length s.errs
    + 2 * filled s.winner
    + filled s.results
    + open_call s.caller

module _ {C : Type 0} (obj : StoreObject) (w : World C) where
  GetStep-rank : (s t : GetSystem C) → GetStep obj w s t → get_rank t < get_rank s
  GetStep-rank s t (GetStep.fails pre post store e p _ same) = rw same (
      omega (
        arith,
        ap length p,
        length-append {0} pre (store ∷ post),
        length-append {0} pre post,
        length-append {0} s.errs (loss store e ∷ []),
      ))
  GetStep-rank s t (GetStep.wins pre post store r p _ _ same) =
      rw same (
        omega
          (arith, ap length p, length-append {0} pre (store ∷ post), length-append {0} pre post))
  GetStep-rank s t (GetStep.closes pre post store r p _ _ same) =
      rw same (
        omega
          (arith, ap length p, length-append {0} pre (store ∷ post), length-append {0} pre post))
  GetStep-rank s t (GetStep.sends r won empty same) =
      rw same (omega (arith, ap filled won, ap filled empty))
  GetStep-rank s t (GetStep.takes n last r c sent same) =
      rw same (omega (arith, ap open_call c, ap filled sent))
  GetStep-rank s t (GetStep.receives n last e es c sent same) =
      rw same (omega (arith, ap open_call c, ap length sent))
  GetStep-rank s t (GetStep.returns last c same) = rw same (omega (arith, ap open_call c))

  -- A store that fails, or gives a reader that can be closed.
  abbrev pub Answers : ImageStore C → Type 0
  Answers store =
      ((e : Error) × (store.get obj w ≡ err e)) ⊎ ((r : Reader) × (store.get obj w ≡ ok (some r)))

  -- A goroutine can always end.
  Answers-GetStep :
      (s : GetSystem C) (store : ImageStore C) (rest : List (ImageStore C))
      → Answers store
      → s.pending ≡ store ∷ rest
      → (t : GetSystem C) × GetStep obj w s t
  Answers-GetStep s store rest (inl (e, g)) p = (_, GetStep.fails [] rest store e p g refl)
  Answers-GetStep s store rest (inr (r, g)) p = elim (Bool-cases s.done) [
    | inl d ↦ (_, GetStep.closes [] rest store r p g d refl)
    | inr d ↦ (_, GetStep.wins [] rest store (some r) p g d refl)
  ]

module _ {C : Type 0} (obj : StoreObject) (w : World C) (stores : List (ImageStore C)) where
  pending-GetStep :
      (s : GetSystem C) (inv : GetInv obj w stores s) (store : ImageStore C)
      (rest : List (ImageStore C))
      → All (Answers obj w) stores
      → s.pending ≡ store ∷ rest
      → (t : GetSystem C) × GetStep obj w s t
  pending-GetStep s inv store rest all p =
      let P = Answers obj w in
      let answers =
        All-right P inv.given s.pending
          (All-right P inv.failed (inv.given ++ s.pending) (All-Permᴰ P inv.all all)) in
      Answers-GetStep obj w s store rest (subst (All P) p answers).0 p

  -- A caller that waits for a message although there is none, and all goroutines have ended, waits
  -- for the reader that is still to be sent.
  winner-waits :
      (s : GetSystem C) (inv : GetInv obj w stores s) (n : ℕ) (last : Result (Option Reader))
      → s.caller ≡ Caller.waiting (suc n) last
      → s.errs ≡ []
      → s.pending ≡ []
      → s.results ≡ none
      → (r : Option Reader) × (s.winner ≡ some r)
  winner-waits s inv n last c no_error all_ended no_result = elim inv.stage [
    | inl (_, none_given, _, _, _) ↦
        let (_, count) = Call-waiting obj w stores s inv.received (suc n) last c inv.call in
        absurd (
          omega (
            arith,
            count,
            length-Permᴰ inv.all,
            length-append {0} inv.failed (inv.given ++ s.pending),
            length-append {0} inv.given s.pending,
            ap length none_given,
            ap length all_ended,
            ap length no_error,
            ap length inv.sent,
            length-append {0} inv.received s.errs,
            length-map (loss_of obj w stores) inv.failed,
          ))
    | inr (_, _, r, _, _, _, _, inl (won, _)) ↦ (r, won)
    | inr (_, _, _, _, _, _, _, inr (inl (_, sent))) ↦ absurd (cc (sent, no_result))
    | inr (_, _, _, _, _, _, _, inr (inr (_, _, gone))) ↦ absurd (cc (c, gone))
  ]

  waiting-GetStep :
      (s : GetSystem C) (inv : GetInv obj w stores s) (n : ℕ) (last : Result (Option Reader))
      → All (Answers obj w) stores
      → s.caller ≡ Caller.waiting (suc n) last
      → (t : GetSystem C) × GetStep obj w s t
  waiting-GetStep s inv n last all c = elim (List-cases s.errs) [
    | inr (e, es, sent) ↦ (_, GetStep.receives n last e es c sent refl)
    | inl no_error ↦ elim (Option-cases s.results) [
      | inr (r, sent) ↦ (_, GetStep.takes n last r c sent refl)
      | inl no_result ↦ elim (List-cases s.pending) [
        | inr (store, rest, p) ↦ pending-GetStep s inv store rest all p
        | inl all_ended ↦
            let (r, won) = winner-waits s inv n last c no_error all_ended no_result in
            (_, GetStep.sends r won no_result refl)
      ]
    ]
  ]

  next_get :
      (s : GetSystem C)
      → All (Answers obj w) stores
      → GetReach obj w (get_start stores) s
      → ((x : Result (Option Reader)) × (s.caller ≡ Caller.returned x))
        ⊎ ((t : GetSystem C) × GetStep obj w s t)
  next_get s all reached = elim (Caller-cases s.caller) [
    | inl back ↦ inl back
    | inr (zero, last, c) ↦ inr (_, GetStep.returns last c refl)
    | inr (suc n, last, c) ↦
        inr (waiting-GetStep s (GetReach-GetInv obj w stores s reached) n last all c)
  ]

  -- If each store fails or gives a reader that is not nil, no deadlock is possible: a state that
  -- `Get` reaches is reached in at most three steps for each store and one more, and from it the
  -- caller can return.
  pub GetReach-returned :
      (s : GetSystem C) (reached : GetReach obj w (get_start stores) s)
      → All (Answers obj w) stores
      → (steps (GetStep obj w) reached ≤ 3 * length stores + 1)
        × ((t : GetSystem C) × GetReach obj w s t
            × ((x : Result (Option Reader)) × (t.caller ≡ Caller.returned x)))
  GetReach-returned s reached all = (
    omega (arith, steps-rank (GetStep obj w) get_rank (GetStep-rank obj w) reached),
    ends_lem (GetStep obj w) get_rank (GetStep-rank obj w)
        (λ t. (x : Result (Option Reader)) × (t.caller ≡ Caller.returned x)) (get_start stores)
        (λ t. next_get t all) s reached,
  )
