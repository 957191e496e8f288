-- ===== src/Command/Ocr/Parallel/Orders.antt =====
-- `Run` of MultiOCRCommand in imageprocessor/processorcommand/ocrcommands.go, and the commands run one
-- after the other.
use mathlib.Core.Path.{subst}
use mathlib.Core.List.{Permᴰ}
use mandible.Base.{
  ◌≡◌, sym, ◌∙◌, ◌⊎◌, inl, inr, String, List, [], ◌∷◌, ◌++◌, Option, none, some, All, All-right,
}
use mandible.Base.Permuted.{All-Permᴰ}
use mandible.Base.Result.{Result, ok}
use mandible.Host.{Host, Machine}
use mandible.Command.Ocr.{OcrResult, OcrCommand, multi_ocr}
use mandible.Command.Ocr.Parallel.{OcrSystem, OcrStep, OcrReach, ocr_start}
use mandible.Command.Ocr.Parallel.Outcomes.{Answers}
use mandible.Command.Ocr.Parallel.Invariant.{Waits, Decided, Waits-start, Waits-fails, Waits-reads}
use mandible.Command.Ocr.Parallel.Taking.{Waits-takes, queued-cons, Decided-error, Decided-best}
use mandible.Concurrent.Gather.{Caller}
use mandible.Concurrent.Runs.{Run}

module _ (m : Machine) (image : String) (commands : List OcrCommand) (h : Host)
    (answers : All (Answers image) commands) where
  abbrev pub InvAt : OcrSystem → Type 0
  InvAt s = Waits m image commands h s ⊎ Decided m image commands h s

  -- A command that has not ended.
  pub pending-Answers :
      (s : OcrSystem) (inv : Waits m image commands h s) (pre post : List OcrCommand)
      (c : OcrCommand)
      → s.pending ≡ pre ++ (c ∷ post)
      → Answers image c
  pending-Answers s inv pre post c p =
      let all =
        All-right (Answers image) inv.ended s.pending (All-Permᴰ (Answers image) inv.all answers) in
      (All-right (Answers image) pre (c ∷ post) (subst (All (Answers image)) p all)).0

  Waits-reads_any :
      (s : OcrSystem) (pre post : List OcrCommand) (c : OcrCommand) (k : Option OcrResult)
      → s.pending ≡ pre ++ (c ∷ post)
      → (c.run image s.host).0 ≡ ok k
      → Waits m image commands h s
      → Waits m image commands h (record s {
        pending = pre ++ post;
        results = s.results ++ (k ∷ []);
        host = (c.run image s.host).1;
      })
  Waits-reads_any s pre post c (some k) p g inv =
      Waits-reads m image commands h s pre post c k (pending-Answers s inv pre post c p) p g inv
  Waits-reads_any s pre post c none p g inv = elim (pending-Answers s inv pre post c p s.host) [
    | inl (e, f) ↦ absurd (cc (g, f))
    | inr (k, f) ↦ absurd (cc (g, f))
  ]

  Waits-OcrStep : (s t : OcrSystem) → OcrStep m image s t → Waits m image commands h s → InvAt t
  Waits-OcrStep s t (OcrStep.fails pre post c e p g same) inv = subst InvAt (sym same) (
      inl (
        Waits-fails m image commands h s pre post c e (pending-Answers s inv pre post c p) p g inv))
  Waits-OcrStep s t (OcrStep.reads pre post c k p g same) inv =
      subst InvAt (sym same) (inl (Waits-reads_any s pre post c k p g inv))
  Waits-OcrStep s t (OcrStep.takes n b k ks c there same) inv =
      subst InvAt (sym same) (inl (Waits-takes m image commands h s n b k ks c there inv))
  Waits-OcrStep s t (OcrStep.takes_nil n b ks c there same) inv =
      let (x, xs, _, nil, _) =
        queued-cons m image commands h inv.queued none ks (sym inv.sent ∙ there) in
      absurd (cc nil)
  Waits-OcrStep s t (OcrStep.takes_error n b e es c there same) inv =
      subst InvAt (sym same) (inr (Decided-error m image commands h s e es there inv))
  Waits-OcrStep s t (OcrStep.returns b c same) inv =
      subst InvAt (sym same) (inr (Decided-best m image commands h s b c inv))

  -- A caller that has returned does nothing more.
  Decided-OcrStep : (s t : OcrSystem) → OcrStep m image s t → Decided m image commands h s → InvAt t
  Decided-OcrStep s t (OcrStep.fails pre post c e p g same) d = subst InvAt (sym same) (inr d)
  Decided-OcrStep s t (OcrStep.reads pre post c k p g same) d = subst InvAt (sym same) (inr d)
  Decided-OcrStep s t (OcrStep.takes n b k ks c there same) (x, back, _, _, _) =
      absurd (cc (c, back))
  Decided-OcrStep s t (OcrStep.takes_nil n b ks c there same) (x, back, _, _, _) =
      absurd (cc (c, back))
  Decided-OcrStep s t (OcrStep.takes_error n b e es c there same) (x, back, _, _, _) =
      absurd (cc (c, back))
  Decided-OcrStep s t (OcrStep.returns b c same) (x, back, _, _, _) = absurd (cc (c, back))

  pub Reach-InvAt : (s : OcrSystem) → OcrReach m image (ocr_start commands h) s → InvAt s
  Reach-InvAt s Run.here = inl (Waits-start m image commands h)
  Reach-InvAt t (Run.next {t = s} r step) = elim (Reach-InvAt s r) [
    | inl inv ↦ Waits-OcrStep s t step inv
    | inr d ↦ Decided-OcrStep s t step d
  ]

  -- In whichever way the goroutines and the caller take turns, and from whichever of the two channels
  -- it takes the next message, `Run` of several commands returns what they give one after the other
  -- in some order, if each of them fails or reads a text.
  pub OcrReach-multi_ocr :
      (s : OcrSystem) (x : Result (Option OcrResult))
      → OcrReach m image (ocr_start commands h) s
      → s.caller ≡ Caller.returned x
      → (ends : List OcrCommand) × Permᴰ ends commands
        × (((multi_ocr m (λ _ _. ends) commands).run image h).0 ≡ x)
  OcrReach-multi_ocr s x reached c = elim (Reach-InvAt s reached) [
    | inl inv ↦ absurd (cc (c, inv.waiting))
    | inr (y, back, ends, all, same) ↦ (ends, all, same ∙ cc (c, back))
  ]
