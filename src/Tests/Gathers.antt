-- ===== src/Tests/Gathers.antt =====
-- The theorems on the goroutines of processes, of saves and of the recognition of text, at runs of two.
use mathlib.Core.List.{Permᴰ}
use mandible.Base.{ℕ, ◌≡◌, refl, ◌⊎◌, ◌≤◌, List, [], ◌∷◌, some, arith, All, map}
use mandible.Base.Dict.{lookup, insert}
use mandible.Base.Result.{Result, ok, ⊤}
use mandible.Upload.File.{set_ocr_text}
use mandible.Command.Ocr.{OcrResult, OcrCommand, multi_ocr}
use mandible.Command.Ocr.Parallel.{OcrSystem, pick, OcrStep, OcrReach, ocr_start}
use mandible.Command.Ocr.Parallel.Outcomes.{Answers}
use mandible.Command.Ocr.Parallel.Invariant.{nothing}
use mandible.Command.Ocr.Parallel.Orders.{OcrReach-multi_ocr}
use mandible.Command.Ocr.Parallel.Progress.{OcrReach-returned}
use mandible.Base.{Option, String, inr}
use mandible.Store.Types.{World, ImageStore}
use mandible.Store.Single.{files, memory_save, memory_store}
use mandible.Store.Multi.{multi_store}
use mandible.Store.Saves.{SaveSystem, save_goroutine, save_start, SaveReach}
use mandible.Store.Saves.Orders.{SaveReach-multi_store}
use mandible.Store.Saves.Copies.{SaveReach-Has}
use mandible.Process.Types.{ProcessType, async_process}
use mandible.Process.Async.{AsyncSystem, AsyncStep, AsyncReach, async_start, goroutine}
use mandible.Process.Async.Orders.{AsyncReach-async_process, AsyncReach-returned}
use mandible.Concurrent.Gather.{Caller, Step}
use mandible.Concurrent.Runs.{Run, steps}
use mandible.Tests.Data.{world, machine, job, jpeg_bytes, object}

-- A process that finds a text, and one that does nothing.
abbrev reading : ProcessType
reading = record {
  process = λ j. (ok tt, record j { image = set_ocr_text "hello" j.image });
  string = "Reading";
}

abbrev idle : ProcessType
idle = record { process = λ j. (ok tt, j); string = "Idle" }

-- The second process ends first, and the first is waited for.
abbrev read : AsyncSystem
read = record {
  pending = [];
  channel = [];
  shared = record job { image = set_ocr_text "hello" job.image };
  caller = Caller.returned (ok tt);
}

read_run : AsyncReach (async_start (reading ∷ idle ∷ []) job) read
unfolding goroutine
read_run =
    Run.next
      (Run.next
        (Run.next
          (Run.next (Run.next Run.here (Step.ends (reading ∷ []) [] idle refl refl))
            (Step.receives 1 tt (ok tt) [] refl refl refl))
          (Step.ends [] [] reading refl refl))
        (Step.receives 0 tt (ok tt) [] refl refl refl))
      (Step.returns tt refl refl)

AsyncReach-async_process_example :
    (ends : List ProcessType) × Permᴰ ends (reading ∷ idle ∷ [])
    × (((async_process (λ _ _. ends) (reading ∷ idle ∷ [])).process job).0 ≡ ok tt)
    × (ok tt ≡ ok tt
        → read.shared ≡ ((async_process (λ _ _. ends) (reading ∷ idle ∷ [])).process job).1)
AsyncReach-async_process_example =
    AsyncReach-async_process (reading ∷ idle ∷ []) job read (ok tt) read_run refl

AsyncReach-returned_example :
    (((r : Result ⊤) × (read.caller ≡ Caller.returned r)) ⊎ ((t : AsyncSystem) × AsyncStep read t))
    × (steps AsyncStep read_run ≤ 5)
    × ((t : AsyncSystem) × AsyncReach read t × ((r : Result ⊤) × (t.caller ≡ Caller.returned r)))
AsyncReach-returned_example = AsyncReach-returned (reading ∷ idle ∷ []) job read read_run

abbrev two_memories : World Unit
two_memories = record world { memories = [] ∷ [] ∷ [] }

abbrev slots : List ℕ
slots = 0 ∷ 1 ∷ []

abbrev saved_world : World Unit
saved_world = record world {
  memories = (("abc", jpeg_bytes) ∷ []) ∷ (("abc", jpeg_bytes) ∷ []) ∷ [];
}

abbrev saved : SaveSystem Unit
saved = record {
  pending = [];
  channel = [];
  shared = (object, saved_world);
  caller = Caller.returned (ok tt);
}

-- The second store ends first.
save_run :
    SaveReach "/tmp/u" (save_start "/tmp/u" (map memory_store slots) object two_memories) saved
unfolding save_goroutine memory_save files lookup insert
save_run =
    Run.next
      (Run.next
        (Run.next
          (Run.next
            (Run.next Run.here (Step.ends (memory_store 0 ∷ []) [] (memory_store 1) refl refl))
            (Step.ends [] [] (memory_store 0) refl refl))
          (Step.receives 1 tt (ok tt) (ok tt ∷ []) refl refl refl))
        (Step.receives 0 tt (ok tt) [] refl refl refl))
      (Step.returns tt refl refl)

SaveReach-multi_store_example :
    (ends : List (ImageStore Unit)) × Permᴰ ends (map memory_store slots)
    × (((multi_store (λ _ _. ends) (map memory_store slots)).save "/tmp/u" object two_memories).0
        ≡ ok tt)
    × (ok tt ≡ ok tt
        → saved.shared ≡ (
          ((multi_store (λ _ _. ends) (map memory_store slots)).save "/tmp/u" object
              two_memories).1,
          ((multi_store (λ _ _. ends) (map memory_store slots)).save "/tmp/u" object
              two_memories).2,
        ))
SaveReach-multi_store_example =
    SaveReach-multi_store "/tmp/u" (map memory_store slots) object two_memories saved (ok tt)
      save_run refl

SaveReach-Has_example :
    (ok tt ≡ ok tt)
    × All (λ slot. lookup "abc" (files slot saved_world) ≡ some jpeg_bytes) (0 ∷ 1 ∷ [])
unfolding lookup
SaveReach-Has_example =
    SaveReach-Has "/tmp/u" jpeg_bytes object two_memories slots saved (ok tt) refl
      (omega arith, (omega arith, tt)) save_run refl

-- A command that reads this text.
abbrev reads_text : String → OcrCommand
reads_text text = record { run = λ _ h. (ok (some (record { kind = "OCR"; text = text })), h) }

abbrev two_readers : List OcrCommand
two_readers = reads_text "you" ∷ reads_text "hello you" ∷ []

abbrev text_of : String → OcrResult
text_of text = record { kind = "OCR"; text = text }

-- The second command is heard of first.
abbrev best_text : Option OcrResult
best_text =
    (pick machine "/tmp/u" (pick machine "/tmp/u" nothing (text_of "hello you")) (text_of "you")).1

abbrev picked : OcrSystem
picked = record {
  pending = [];
  results = [];
  errs = [];
  host = job.host;
  caller = Caller.returned (ok best_text);
}

ocr_run : OcrReach machine "/tmp/u" (ocr_start two_readers job.host) picked
ocr_run =
    Run.next
      (Run.next
        (Run.next
          (Run.next
            (Run.next Run.here (
              OcrStep.reads (reads_text "you" ∷ []) [] (reads_text "hello you")
                (some (text_of "hello you")) refl refl refl))
            (OcrStep.takes 1 nothing (text_of "hello you") [] refl refl refl))
          (OcrStep.reads [] [] (reads_text "you") (some (text_of "you")) refl refl refl))
        (OcrStep.takes 0 (pick machine "/tmp/u" nothing (text_of "hello you")) (text_of "you") []
          refl refl refl))
      (OcrStep.returns
        (pick machine "/tmp/u" (pick machine "/tmp/u" nothing (text_of "hello you"))
          (text_of "you"))
        refl refl)

two_readers-Answers : All (Answers "/tmp/u") two_readers
two_readers-Answers = (λ h. inr (text_of "you", refl), (λ h. inr (text_of "hello you", refl), tt))

OcrReach-multi_ocr_example :
    (ends : List OcrCommand) × Permᴰ ends two_readers
    × (((multi_ocr machine (λ _ _. ends) two_readers).run "/tmp/u" job.host).0 ≡ ok best_text)
OcrReach-multi_ocr_example =
    OcrReach-multi_ocr machine "/tmp/u" two_readers job.host two_readers-Answers picked
      (ok best_text) ocr_run refl

OcrReach-returned_example :
    (steps (OcrStep machine "/tmp/u") ocr_run ≤ 5)
    × ((t : OcrSystem) × OcrReach machine "/tmp/u" picked t
        × ((x : Result (Option OcrResult)) × (t.caller ≡ Caller.returned x)))
OcrReach-returned_example =
    OcrReach-returned machine "/tmp/u" two_readers job.host two_readers-Answers picked ocr_run
