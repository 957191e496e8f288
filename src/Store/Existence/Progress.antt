-- ===== src/Store/Existence/Progress.antt =====
-- The caller of an `Exists` of several stores in imagestore/store.go always returns.

use mathlib.Core.Path.{subst}
use mandible.Base.{
  ℕ, zero, suc, ◌+◌, ◌*◌, ◌≤◌, ◌<◌, ◌≡◌, ◌≢◌, refl, ap, ◌⊎◌, inl, inr, List, [], ◌∷◌, ◌++◌, Bool,
  length, length-append, true, false, All, All-right, arith, List-cases,
}
use mandible.Base.Permuted.{length-Permᴰ, All-Permᴰ}
use mandible.Base.Result.{Error, Result, panic, Result-cases}
use mandible.Store.Types.{StoreObject, World, ImageStore}
use mandible.Concurrent.Gather.{Caller, Caller-cases, open_call}
use mandible.Concurrent.Runs.{steps, steps-rank, ends_lem}
use mandible.Store.Existence.{ExistsSystem, ExistsStep, ExistsReach, exists_start, unproven}
use mandible.Store.Existence.Invariant.{Failed, Answered, Waits}
use mandible.Store.Existence.Orders.{ExistsReach-ExistsInv}

-- The steps that can still follow.
abbrev exists_rank : {C : Type 0} → ExistsSystem C → ℕ
exists_rank s = 2 * length s.pending + length s.errs + length s.results + open_call s.caller

module _ {C : Type 0} (obj : StoreObject) (w : World C) where
  ExistsStep-rank : (s t : ExistsSystem C) → ExistsStep obj w s t → exists_rank t < exists_rank s
  ExistsStep-rank s t (ExistsStep.fails pre post store e p _ same) = rw same (
      omega (
        arith,
        ap length p,
        length-append {0} pre (store ∷ post),
        length-append {0} pre post,
        length-append {0} s.errs (unproven store e ∷ []),
      ))
  ExistsStep-rank s t (ExistsStep.answers pre post store r p _ same) = rw same (
      omega (
        arith,
        ap length p,
        length-append {0} pre (store ∷ post),
        length-append {0} pre post,
        length-append {0} s.results (r ∷ []),
      ))
  ExistsStep-rank s t (ExistsStep.takes_error n e es c sent same) =
      rw same (omega (arith, ap open_call c, ap length sent))
  ExistsStep-rank s t (ExistsStep.takes_true n rs c sent same) =
      rw same (omega (arith, ap open_call c, ap length sent))
  ExistsStep-rank s t (ExistsStep.takes_false n rs c sent same) =
      rw same (omega (arith, ap open_call c, ap length sent))
  ExistsStep-rank s t (ExistsStep.returns c same) = rw same (omega (arith, ap open_call c))

  abbrev pub Ends : ImageStore C → Type 0
  Ends store = store.exists obj w ≢ panic

  Ends-ExistsStep :
      (s : ExistsSystem C) (store : ImageStore C) (rest : List (ImageStore C))
      → Ends store
      → s.pending ≡ store ∷ rest
      → (t : ExistsSystem C) × ExistsStep obj w s t
  Ends-ExistsStep s store rest fine p = elim (Result-cases (store.exists obj w)) [
    | inl (r, g) ↦ (_, ExistsStep.answers [] rest store r p g refl)
    | inr (inl (e, g)) ↦ (_, ExistsStep.fails [] rest store e p g refl)
    | inr (inr g) ↦ absurd (fine g)
  ]

  result-ExistsStep :
      (s : ExistsSystem C) (n : ℕ) (r : Bool) (rs : List Bool)
      → s.caller ≡ Caller.waiting (suc n) tt
      → s.results ≡ r ∷ rs
      → (t : ExistsSystem C) × ExistsStep obj w s t
  result-ExistsStep s n true rs c sent = (_, ExistsStep.takes_true n rs c sent refl)
  result-ExistsStep s n false rs c sent = (_, ExistsStep.takes_false n rs c sent refl)

  length-Failed :
      (failed : List (ImageStore C)) (ms : List Error)
      → Failed obj w failed ms
      → length failed ≡ length ms
  length-Failed [] [] h = refl
  length-Failed [] (m ∷ ms) h = elim h [ ]
  length-Failed (s ∷ failed) [] h = elim h [ ]
  length-Failed (s ∷ failed) (m ∷ ms) (_, h) = ap suc (length-Failed failed ms h)

  length-Answered :
      (answered : List (ImageStore C)) (rs : List Bool)
      → Answered obj w answered rs
      → length answered ≡ length rs
  length-Answered [] [] h = refl
  length-Answered [] (r ∷ rs) h = elim h [ ]
  length-Answered (s ∷ answered) [] h = elim h [ ]
  length-Answered (s ∷ answered) (r ∷ rs) (_, h) = ap suc (length-Answered answered rs h)

module _ {C : Type 0} (obj : StoreObject) (w : World C) (stores : List (ImageStore C)) where
  pending-ExistsStep :
      (s : ExistsSystem C) (inv : Waits obj w stores s) (store : ImageStore C)
      (rest : List (ImageStore C))
      → All (Ends obj w) stores
      → s.pending ≡ store ∷ rest
      → (t : ExistsSystem C) × ExistsStep obj w s t
  pending-ExistsStep s inv store rest all p =
      let P = Ends obj w in
      let fine = All-right P inv.answered s.pending (
        All-right P inv.failed (inv.answered ++ s.pending) (
          All-right P inv.denied (inv.failed ++ (inv.answered ++ s.pending))
            (All-Permᴰ P inv.all all))) in
      Ends-ExistsStep obj w s store rest (subst (All P) p fine).0 p

  -- While the caller waits for a message, one is in a channel or a goroutine has not ended.
  not-deadlocked :
      (s : ExistsSystem C) (inv : Waits obj w stores s) (n : ℕ)
      → s.caller ≡ Caller.waiting (suc n) tt
      → suc (n + length inv.denied)
        ≤ length inv.denied + length s.errs + length s.results + length s.pending
  not-deadlocked s inv n c =
      let same : suc n ≡ inv.left = cc (c, inv.waiting) in
      omega (
        arith,
        same,
        inv.count,
        length-Permᴰ inv.all,
        length-append {0} inv.denied (inv.failed ++ (inv.answered ++ s.pending)),
        length-append {0} inv.failed (inv.answered ++ s.pending),
        length-append {0} inv.answered s.pending,
        length-Failed obj w inv.failed s.errs inv.sent_errors,
        length-Answered obj w inv.answered s.results inv.sent_answers,
      )

  waiting-ExistsStep :
      (s : ExistsSystem C) (inv : Waits obj w stores s) (n : ℕ)
      → All (Ends obj w) stores
      → s.caller ≡ Caller.waiting (suc n) tt
      → (t : ExistsSystem C) × ExistsStep obj w s t
  waiting-ExistsStep s inv n all c = elim (List-cases s.errs) [
    | inr (e, es, sent) ↦ (_, ExistsStep.takes_error n e es c sent refl)
    | inl no_error ↦ elim (List-cases s.results) [
      | inr (r, rs, sent) ↦ result-ExistsStep obj w s n r rs c sent
      | inl no_result ↦ elim (List-cases s.pending) [
        | inr (store, rest, p) ↦ pending-ExistsStep s inv store rest all p
        | inl all_ended ↦ absurd (
            omega (
              arith,
              not-deadlocked s inv n c,
              ap length no_error,
              ap length no_result,
              ap length all_ended,
            ))
      ]
    ]
  ]

  next_exists :
      (s : ExistsSystem C)
      → All (Ends obj w) stores
      → ExistsReach obj w (exists_start stores) s
      → ((x : Result Bool) × (s.caller ≡ Caller.returned x))
        ⊎ ((t : ExistsSystem C) × ExistsStep obj w s t)
  next_exists s all reached = elim (ExistsReach-ExistsInv obj w stores s reached) [
    | inr (x, c, _, _, _) ↦ inl (x, c)
    | inl inv ↦ elim (Caller-cases s.caller) [
      | inl back ↦ inl back
      | inr (zero, a, c) ↦ inr (_, ExistsStep.returns c refl)
      | inr (suc n, a, c) ↦ inr (waiting-ExistsStep s inv n all c)
    ]
  ]

  -- If no store panics, no deadlock is possible: a state that `Exists` reaches is reached in at most
  -- two steps for each store and one more, and from it the caller can return.
  pub ExistsReach-returned :
      (s : ExistsSystem C) (reached : ExistsReach obj w (exists_start stores) s)
      → All (Ends obj w) stores
      → (steps (ExistsStep obj w) reached ≤ 2 * length stores + 1)
        × ((t : ExistsSystem C) × ExistsReach obj w s t
            × ((x : Result Bool) × (t.caller ≡ Caller.returned x)))
  ExistsReach-returned s reached all = (
    omega (arith, steps-rank (ExistsStep obj w) exists_rank (ExistsStep-rank obj w) reached),
    ends_lem (ExistsStep obj w) exists_rank (ExistsStep-rank obj w)
        (λ t. (x : Result Bool) × (t.caller ≡ Caller.returned x)) (exists_start stores)
        (λ t. next_exists t all) s reached,
  )
