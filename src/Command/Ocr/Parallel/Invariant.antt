-- ===== src/Command/Ocr/Parallel/Invariant.antt =====
-- What holds in every state that `Run` of MultiOCRCommand in
-- imageprocessor/processorcommand/ocrcommands.go reaches.
use mathlib.Core.Path.{subst}
use mathlib.Core.List.{Permᴰ, append_assoc, map-append}
use mathlib.Core.List.Permᴰ
use mandible.Base.{
  ℕ, ◌+◌, ◌≡◌, refl, ap, sym, ◌∙◌, String, List, [], ◌∷◌, ◌++◌, map, Option, none, some, length,
  All, All-append, arith,
}
use mandible.Base.Permuted.{moved}
use mandible.Base.Int.{negsuc}
use mandible.Base.Result.{Error, Result, ok, err}
use mandible.Host.{Host, Machine}
use mandible.Command.Ocr.{OcrResult, OcrCommand, best_of}
use mandible.Command.Ocr.Parallel.{Best, OcrSystem, ocr_start}
use mandible.Command.Ocr.Parallel.Outcomes.{
  Answers, after, texts, faults, after-append, texts-append, faults-append, picks,
}
use mandible.Concurrent.Gather.{Caller}

abbrev pub nothing : Best
nothing = (negsuc 0, none)

module _ (m : Machine) (image : String) (commands : List OcrCommand) (h : Host) where
  -- The caller waits: the commands that have ended, in that order, and the results it has taken.
  pub record Waits (s : OcrSystem) : Type 0 where
    pub left : ℕ
    pub ended : List OcrCommand
    pub taken : List OcrResult
    pub queued : List OcrResult
    pub all : Permᴰ (ended ++ s.pending) commands
    pub answer : All (Answers image) ended
    pub host : s.host ≡ after image ended h
    pub errors : faults image ended h ≡ s.errs
    pub sent : s.results ≡ map some queued
    pub read : texts image ended h ≡ taken ++ queued
    pub waiting : s.caller ≡ Caller.waiting left (picks image m nothing taken)
    pub count : left + length taken ≡ length commands

  -- The caller has returned what the commands give one after the other in some order.
  abbrev pub Decided : OcrSystem → Type 0
  Decided s =
      (x : Result (Option OcrResult)) × (s.caller ≡ Caller.returned x)
      × (ends : List OcrCommand) × Permᴰ ends commands
      × ((best_of m ends image (negsuc 0) none h).0 ≡ x)

  pub Waits-start : Waits (ocr_start commands h)
  unfolding after texts faults picks
  Waits-start = record {
    left = length commands;
    ended = [];
    taken = [];
    queued = [];
    all = Permᴰ.refl commands;
    answer = tt;
    host = refl;
    errors = refl;
    sent = refl;
    read = refl;
    waiting = refl;
    count = omega arith;
  }

  pub Waits-fails :
      (s : OcrSystem) (pre post : List OcrCommand) (c : OcrCommand) (e : Error)
      → Answers image c
      → s.pending ≡ pre ++ (c ∷ post)
      → (c.run image s.host).0 ≡ err e
      → Waits s
      → Waits (record s {
        pending = pre ++ post;
        errs = s.errs ++ (e ∷ []);
        host = (c.run image s.host).1;
      })
  Waits-fails s pre post c e a p g inv =
      let g' : (c.run image (after image inv.ended h)).0 ≡ err e =
        subst (λ k. (c.run image k).0 ≡ err e) inv.host g in
      let (same_texts, more_faults) = faults-append image inv.ended c e h inv.answer g' in
      record {
        left = inv.left;
        ended = inv.ended ++ (c ∷ []);
        taken = inv.taken;
        queued = inv.queued;
        all =
            Permᴰ.trans (moved inv.ended pre post c)
              (subst (λ l. Permᴰ (inv.ended ++ l) commands) p inv.all);
        answer = All-append (Answers image) inv.ended (c ∷ []) inv.answer (a, tt);
        host = ap (λ k. (c.run image k).1) inv.host ∙ sym (after-append image inv.ended c h);
        errors = more_faults ∙ ap (λ l. l ++ (e ∷ [])) inv.errors;
        sent = inv.sent;
        read = same_texts ∙ inv.read;
        waiting = inv.waiting;
        count = inv.count;
      }

  pub Waits-reads :
      (s : OcrSystem) (pre post : List OcrCommand) (c : OcrCommand) (k : OcrResult)
      → Answers image c
      → s.pending ≡ pre ++ (c ∷ post)
      → (c.run image s.host).0 ≡ ok (some k)
      → Waits s
      → Waits (record s {
        pending = pre ++ post;
        results = s.results ++ (some k ∷ []);
        host = (c.run image s.host).1;
      })
  Waits-reads s pre post c k a p g inv =
      let g' : (c.run image (after image inv.ended h)).0 ≡ ok (some k) =
        subst (λ x. (c.run image x).0 ≡ ok (some k)) inv.host g in
      let (more_texts, same_faults) = texts-append image inv.ended c k h inv.answer g' in
      record {
        left = inv.left;
        ended = inv.ended ++ (c ∷ []);
        taken = inv.taken;
        queued = inv.queued ++ (k ∷ []);
        all =
            Permᴰ.trans (moved inv.ended pre post c)
              (subst (λ l. Permᴰ (inv.ended ++ l) commands) p inv.all);
        answer = All-append (Answers image) inv.ended (c ∷ []) inv.answer (a, tt);
        host = ap (λ x. (c.run image x).1) inv.host ∙ sym (after-append image inv.ended c h);
        errors = same_faults ∙ inv.errors;
        sent = ap (λ l. l ++ (some k ∷ [])) inv.sent ∙ sym (map-append some inv.queued (k ∷ []));
        read =
            more_texts
            ∙ (ap (λ l. l ++ (k ∷ [])) inv.read ∙ append_assoc inv.taken inv.queued (k ∷ []));
        waiting = inv.waiting;
        count = inv.count;
      }
