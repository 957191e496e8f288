-- ===== src/Command/Ocr/Parallel.antt =====
-- imageprocessor/processorcommand/ocrcommands.go: the method `Run` of MultiOCRCommand, with its
-- goroutines and two channels, which have room for all messages.
pub mod Outcomes
pub mod Invariant
pub mod Orders
pub mod Taking
pub mod Progress
use mandible.Base.{
  ℕ, zero, suc, ◌≡◌, String, Bool, List, [], ◌∷◌, ◌++◌, Option, none, some, length, if◌then◌else◌,
}
use mandible.Base.Int.{ℤ, pos, negsuc, ltb_ℤ}
use mandible.Base.Result.{Error, Result, ok, err, panic}
use mandible.Host.{Host, Machine}
use mandible.Command.Ocr.{OcrResult, OcrCommand, remove_non_words, word_count}
use mandible.Concurrent.Gather.{Caller}
use mandible.Concurrent.Runs.{Run}

-- `max` and `best`.
abbrev pub Best : Type 0
Best = ℤ × Option OcrResult

-- The goroutines that have not ended, what the two channels hold, the host that the goroutines share,
-- and the caller.
pub record OcrSystem : Type 0 where
  pub pending : List OcrCommand
  pub results : List (Option OcrResult)
  pub errs : List Error
  pub host : Host
  pub caller : Caller Best (Result (Option OcrResult))

module _ (m : Machine) (image : String) where
  -- The body of the loop for a result: it is the best if it has more words.
  abbrev pub pick : Best → OcrResult → Best
  pick (max, best) k =
      let result = remove_non_words m k in
      let count = pos (word_count result.text) in
      let better = ltb_ℤ max count in
      (if better then count else max, if better then some result else best)

  -- A goroutine sends its error or its result. The caller takes a result, which it reads, so that a nil
  -- is a panic; takes an error; or has taken as many messages as there are commands.
  pub data OcrStep (s t : OcrSystem) : Type 0 where
    fails :
        (pre post : List OcrCommand) (c : OcrCommand) (e : Error)
        → s.pending ≡ pre ++ (c ∷ post)
        → (c.run image s.host).0 ≡ err e
        → t ≡ record s {
          pending = pre ++ post;
          errs = s.errs ++ (e ∷ []);
          host = (c.run image s.host).1;
        }
        → OcrStep s t
    reads :
        (pre post : List OcrCommand) (c : OcrCommand) (k : Option OcrResult)
        → s.pending ≡ pre ++ (c ∷ post)
        → (c.run image s.host).0 ≡ ok k
        → t ≡ record s {
          pending = pre ++ post;
          results = s.results ++ (k ∷ []);
          host = (c.run image s.host).1;
        }
        → OcrStep s t
    takes :
        (n : ℕ) (b : Best) (k : OcrResult) (ks : List (Option OcrResult))
        → s.caller ≡ Caller.waiting (suc n) b
        → s.results ≡ some k ∷ ks
        → t ≡ record s { results = ks; caller = Caller.waiting n (pick b k) }
        → OcrStep s t
    takes_nil :
        (n : ℕ) (b : Best) (ks : List (Option OcrResult))
        → s.caller ≡ Caller.waiting (suc n) b
        → s.results ≡ none ∷ ks
        → t ≡ record s { results = ks; caller = Caller.returned panic }
        → OcrStep s t
    takes_error :
        (n : ℕ) (b : Best) (e : Error) (es : List Error)
        → s.caller ≡ Caller.waiting (suc n) b
        → s.errs ≡ e ∷ es
        → t ≡ record s { errs = es; caller = Caller.returned (err e) }
        → OcrStep s t
    returns :
        (b : Best)
        → s.caller ≡ Caller.waiting zero b
        → t ≡ record s { caller = Caller.returned (ok b.1) }
        → OcrStep s t

  abbrev pub OcrReach : OcrSystem → OcrSystem → Type 0
  OcrReach s t = Run OcrStep s t

-- The goroutines of these commands have been started.
abbrev pub ocr_start : List OcrCommand → Host → OcrSystem
ocr_start commands h = record {
  pending = commands;
  results = [];
  errs = [];
  host = h;
  caller = Caller.waiting (length commands) (negsuc 0, none);
}
