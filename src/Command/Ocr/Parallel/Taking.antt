-- ===== src/Command/Ocr/Parallel/Taking.antt =====
-- The caller of `Run` of MultiOCRCommand in imageprocessor/processorcommand/ocrcommands.go keeps the
-- invariant.

use mathlib.Core.List.{append-nil, append_assoc}
use mandible.Base.{
  ℕ, zero, suc, ◌+◌, ◌≡◌, refl, ap, sym, ◌∙◌, String, List, [], ◌∷◌, ◌++◌, map, Option, none, some,
  length, length-append, arith, nil-of_length,
}
use mandible.Base.Permuted.{length-Permᴰ}
use mandible.Base.Int.{negsuc}
use mandible.Base.Result.{Error, ok, err}
use mandible.Host.{Host, Machine}
use mandible.Command.Ocr.{OcrResult, OcrCommand, best_of}
use mandible.Command.Ocr.Parallel.{Best, OcrSystem, pick}
use mandible.Command.Ocr.Parallel.Outcomes.{
  texts, faults, length-texts, picks, picks-append, best_of-faults, best_of-texts,
}
use mandible.Concurrent.Gather.{Caller}
use mandible.Command.Ocr.Parallel.Invariant.{nothing, Waits, Decided}

module _ (m : Machine) (image : String) (commands : List OcrCommand) (h : Host) where
  -- What waits in the channel of the results is what has been read.
  pub queued-cons :
      (queued : List OcrResult) (k : Option OcrResult) (ks : List (Option OcrResult))
      → map some queued ≡ k ∷ ks
      → (x : OcrResult) × (xs : List OcrResult) × (queued ≡ x ∷ xs)
        × (k ≡ some x)
        × (ks ≡ map some xs)
  queued-cons [] k ks e = absurd (cc e)
  queued-cons (x ∷ xs) k ks e = (x, xs, refl, sym (cc e), sym (cc e))

  pub Waits-takes :
      (s : OcrSystem) (n : ℕ) (b : Best) (k : OcrResult) (ks : List (Option OcrResult))
      → s.caller ≡ Caller.waiting (suc n) b
      → s.results ≡ some k ∷ ks
      → Waits m image commands h s
      → Waits m image commands h
          (record s { results = ks; caller = Caller.waiting n (pick m image b k) })
  Waits-takes s n b k ks c there inv =
      let (x, xs, q, same, rest) = queued-cons inv.queued (some k) ks (sym inv.sent ∙ there) in
      let k_is : x ≡ k = cc same in
      let b_is : picks image m nothing inv.taken ≡ b = cc (c, inv.waiting) in
      let n_is : suc n ≡ inv.left = cc (c, inv.waiting) in
      record {
        left = n;
        ended = inv.ended;
        taken = inv.taken ++ (k ∷ []);
        queued = xs;
        all = inv.all;
        answer = inv.answer;
        host = inv.host;
        errors = inv.errors;
        sent = rest;
        read =
            inv.read
            ∙ (ap (λ l. inv.taken ++ l) (q ∙ ap (λ y. y ∷ xs) k_is)
                ∙ sym (append_assoc inv.taken (k ∷ []) xs));
        waiting = ap (Caller.waiting n) (
            ap (λ y. pick m image y k) (sym b_is) ∙ sym (picks-append image m nothing inv.taken k));
        count = omega (arith, n_is, inv.count, length-append {0} inv.taken (k ∷ []));
      }

  pub Decided-error :
      (s : OcrSystem) (e : Error) (es : List Error)
      → s.errs ≡ e ∷ es
      → Waits m image commands h s
      → Decided m image commands h (record s { errs = es; caller = Caller.returned (err e) })
  Decided-error s e es there inv = (
    err e,
    refl,
    inv.ended ++ s.pending,
    inv.all,
    best_of-faults image m inv.ended s.pending nothing h e es inv.answer (inv.errors ∙ there),
  )

  -- Once as many results have been taken as there are commands, all have ended without an error.
  all-taken :
      (s : OcrSystem) (inv : Waits m image commands h s)
      → length inv.taken ≡ length commands
      → (s.pending ≡ []) × (faults image inv.ended h ≡ []) × (inv.queued ≡ [])
  all-taken s inv count =
      let sizes : length inv.queued + (length (faults image inv.ended h) + length s.pending) ≡ 0 =
        omega (
          arith,
          count,
          length-Permᴰ inv.all,
          length-append {0} inv.ended s.pending,
          length-texts image inv.ended h inv.answer,
          ap length inv.read,
          length-append {0} inv.taken inv.queued,
        ) in
      (
        nil-of_length s.pending (omega (arith, sizes)),
        nil-of_length (faults image inv.ended h) (omega (arith, sizes)),
        nil-of_length inv.queued (omega (arith, sizes)),
      )

  pub Decided-best :
      (s : OcrSystem) (b : Best)
      → s.caller ≡ Caller.waiting zero b
      → Waits m image commands h s
      → Decided m image commands h (record s { caller = Caller.returned (ok b.1) })
  Decided-best s b c inv =
      let b_is : picks image m nothing inv.taken ≡ b = cc (c, inv.waiting) in
      let n_is : zero ≡ inv.left = cc (c, inv.waiting) in
      let (ended, no_faults, no_more) = all-taken s inv (omega (arith, n_is, inv.count)) in
      let read : texts image inv.ended h ≡ inv.taken =
        inv.read ∙ (ap (λ l. inv.taken ++ l) no_more ∙ append-nil inv.taken) in
      (
        ok b.1,
        refl,
        inv.ended ++ s.pending,
        inv.all,
        ap (λ l. (best_of m l image (negsuc 0) none h).0)
              (ap (λ l. inv.ended ++ l) ended ∙ append-nil inv.ended)
            ∙ (best_of-texts image m inv.ended nothing h inv.answer no_faults
                ∙ ap (λ (x : Best). ok x.1) (ap (picks image m nothing) read ∙ b_is)),
      )
