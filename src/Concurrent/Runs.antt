-- ===== src/Concurrent/Runs.antt =====
-- Runs of the step relations of this development, which are not about one part of the code: their
-- length, and why they end.
use mandible.Base.{ℕ, zero, suc, ◌+◌, ◌≤◌, ◌<◌, ◌⊎◌, inl, inr, arith}

pub data Run {S : Type 0} (Step : S → S → Type 0) (s : S) : S → Type 0 where
  here : Run Step s s
  next : {t u : S} → Run Step s t → Step t u → Run Step s u

module _ {S : Type 0} (Step : S → S → Type 0) where
  -- The number of steps of a run.
  unfoldable pub steps : {s t : S} → Run Step s t → ℕ
  steps Run.here = 0
  steps (Run.next r st) = suc (steps r)

  pub Run-append : {s t u : S} → Run Step s t → Run Step t u → Run Step s u
  Run-append r Run.here = r
  Run-append r (Run.next q st) = Run.next (Run-append r q) st

  module _ (rank : S → ℕ) (smaller : (s t : S) → Step s t → rank t < rank s) where
    -- Where every step makes a measure smaller, it bounds the steps that a run has.
    pub steps-rank : {s t : S} (r : Run Step s t) → steps r + rank t ≤ rank s
    unfolding steps
    steps-rank Run.here = omega arith
    steps-rank (Run.next r st) = omega (arith, steps-rank r, smaller _ _ st)

  -- Where also a step follows from every state that is reached and not final, a final state follows.
  module _ (rank : S → ℕ) (smaller : (s t : S) → Step s t → rank t < rank s) (Final : S → Type 0)
      (first : S) (follows : (s : S) → Run Step first s → Final s ⊎ ((t : S) × Step s t)) where
    ends_within :
        (fuel : ℕ) (s : S) → rank s < fuel → Run Step first s → (t : S) × Run Step s t × Final t
    ends_within zero s h run = absurd (omega (arith, h))
    ends_within (suc fuel) s h run = elim (follows s run) [
      | inl f ↦ (s, Run.here, f)
      | inr (t, st) ↦
          let (u, more, f) =
            ends_within fuel t (omega (arith, h, smaller s t st)) (Run.next run st) in
          (u, Run-append (Run.next Run.here st) more, f)
    ]

    pub ends_lem : (s : S) → Run Step first s → (t : S) × Run Step s t × Final t
    ends_lem s run = ends_within (suc (rank s)) s (omega arith) run
