-- ===== src/Command/Ocr/Parallel/Progress.antt =====
-- The caller of `Run` of MultiOCRCommand in imageprocessor/processorcommand/ocrcommands.go always
-- returns.

use mandible.Base.{
  ℕ, zero, suc, ◌+◌, ◌*◌, ◌≤◌, ◌<◌, ◌≡◌, refl, ap, ◌⊎◌, inl, inr, String, List, [], ◌∷◌, map,
  Option, none, some, length, length-append, All, arith, List-cases,
}
use mandible.Base.Permuted.{length-Permᴰ}
use mandible.Base.Result.{Result}
use mandible.Host.{Host, Machine}
use mandible.Command.Ocr.{OcrResult, OcrCommand}
use mandible.Command.Ocr.Parallel.{Best, OcrSystem, OcrStep, OcrReach, ocr_start}
use mandible.Command.Ocr.Parallel.Outcomes.{Answers, length-texts}
use mandible.Command.Ocr.Parallel.Invariant.{Waits}
use mandible.Concurrent.Gather.{Caller, Caller-cases, open_call}
use mandible.Concurrent.Runs.{steps, steps-rank, ends_lem}
use mandible.Command.Ocr.Parallel.Orders.{pending-Answers, Reach-InvAt}

abbrev ocr_rank : OcrSystem → ℕ
ocr_rank s = 2 * length s.pending + length s.errs + length s.results + open_call s.caller

module _ (m : Machine) (image : String) where
  OcrStep-rank : (s t : OcrSystem) → OcrStep m image s t → ocr_rank t < ocr_rank s
  OcrStep-rank s t (OcrStep.fails pre post c e p _ same) = rw same (
      omega (
        arith,
        ap length p,
        length-append {0} pre (c ∷ post),
        length-append {0} pre post,
        length-append {0} s.errs (e ∷ []),
      ))
  OcrStep-rank s t (OcrStep.reads pre post c k p _ same) = rw same (
      omega (
        arith,
        ap length p,
        length-append {0} pre (c ∷ post),
        length-append {0} pre post,
        length-append {0} s.results (k ∷ []),
      ))
  OcrStep-rank s t (OcrStep.takes n b k ks c there same) =
      rw same (omega (arith, ap open_call c, ap length there))
  OcrStep-rank s t (OcrStep.takes_nil n b ks c there same) =
      rw same (omega (arith, ap open_call c, ap length there))
  OcrStep-rank s t (OcrStep.takes_error n b e es c there same) =
      rw same (omega (arith, ap open_call c, ap length there))
  OcrStep-rank s t (OcrStep.returns b c same) = rw same (omega (arith, ap open_call c))

module _ (m : Machine) (image : String) (commands : List OcrCommand) (h : Host)
    (answers : All (Answers image) commands) where
  pending-OcrStep :
      (s : OcrSystem) (inv : Waits m image commands h s) (c : OcrCommand) (rest : List OcrCommand)
      → s.pending ≡ c ∷ rest
      → (t : OcrSystem) × OcrStep m image s t
  pending-OcrStep s inv c rest p =
      elim (pending-Answers m image commands h answers s inv [] rest c p s.host) [
        | inl (e, g) ↦ (_, OcrStep.fails [] rest c e p g refl)
        | inr (k, g) ↦ (_, OcrStep.reads [] rest c (some k) p g refl)
      ]

  result-OcrStep :
      (s : OcrSystem) (n : ℕ) (b : Best) (k : Option OcrResult) (ks : List (Option OcrResult))
      → s.caller ≡ Caller.waiting (suc n) b
      → s.results ≡ k ∷ ks
      → (t : OcrSystem) × OcrStep m image s t
  result-OcrStep s n b (some k) ks c there = (_, OcrStep.takes n b k ks c there refl)
  result-OcrStep s n b none ks c there = (_, OcrStep.takes_nil n b ks c there refl)

  length-some : (ks : List OcrResult) → length (map some ks) ≡ length ks
  length-some [] = refl
  length-some (k ∷ ks) = omega (arith, length-some ks)

  -- While the caller waits for a message, one is in a channel or a goroutine has not ended.
  message-left :
      (s : OcrSystem) (inv : Waits m image commands h s) (n : ℕ) (b : Best)
      → s.caller ≡ Caller.waiting (suc n) b
      → suc n ≤ length s.errs + length s.results + length s.pending
  message-left s inv n b c =
      let same : suc n ≡ inv.left = cc (c, inv.waiting) in
      omega (
        arith,
        same,
        inv.count,
        length-Permᴰ inv.all,
        length-append {0} inv.ended s.pending,
        length-texts image inv.ended h inv.answer,
        ap length inv.errors,
        ap length inv.read,
        length-append {0} inv.taken inv.queued,
        ap length inv.sent,
        length-some inv.queued,
      )

  waiting-OcrStep :
      (s : OcrSystem) (inv : Waits m image commands h s) (n : ℕ) (b : Best)
      → s.caller ≡ Caller.waiting (suc n) b
      → (t : OcrSystem) × OcrStep m image s t
  waiting-OcrStep s inv n b c = elim (List-cases s.errs) [
    | inr (e, es, there) ↦ (_, OcrStep.takes_error n b e es c there refl)
    | inl no_error ↦ elim (List-cases s.results) [
      | inr (k, ks, there) ↦ result-OcrStep s n b k ks c there
      | inl no_result ↦ elim (List-cases s.pending) [
        | inr (x, rest, p) ↦ pending-OcrStep s inv x rest p
        | inl all_ended ↦ absurd (
            omega (
              arith,
              message-left s inv n b c,
              ap length no_error,
              ap length no_result,
              ap length all_ended,
            ))
      ]
    ]
  ]

  next_ocr :
      (s : OcrSystem)
      → OcrReach m image (ocr_start commands h) s
      → ((x : Result (Option OcrResult)) × (s.caller ≡ Caller.returned x))
        ⊎ ((t : OcrSystem) × OcrStep m image s t)
  next_ocr s reached = elim (Reach-InvAt m image commands h answers s reached) [
    | inr (x, c, _, _, _) ↦ inl (x, c)
    | inl inv ↦ elim (Caller-cases s.caller) [
      | inl back ↦ inl back
      | inr (zero, b, c) ↦ inr (_, OcrStep.returns b c refl)
      | inr (suc n, b, c) ↦ inr (waiting-OcrStep s inv n b c)
    ]
  ]

  -- If each of the commands fails or reads a text, no deadlock is possible: a state that `Run` reaches
  -- is reached in at most two steps for each command and one more, and from it the caller can return.
  pub OcrReach-returned :
      (s : OcrSystem) (reached : OcrReach m image (ocr_start commands h) s)
      → (steps (OcrStep m image) reached ≤ 2 * length commands + 1)
        × ((t : OcrSystem) × OcrReach m image s t
            × ((x : Result (Option OcrResult)) × (t.caller ≡ Caller.returned x)))
  OcrReach-returned s reached = (
    omega (arith, steps-rank (OcrStep m image) ocr_rank (OcrStep-rank m image) reached),
    ends_lem (OcrStep m image) ocr_rank (OcrStep-rank m image)
        (λ t. (x : Result (Option OcrResult)) × (t.caller ≡ Caller.returned x))
        (ocr_start commands h) next_ocr s reached,
  )
