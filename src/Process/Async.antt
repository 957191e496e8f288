-- ===== src/Process/Async.antt =====
-- imageprocessor/imageprocessor.go: the method `Process` of asyncProcessType, with its goroutines.
pub mod Orders
pub mod Thumbs
use mandible.Base.{String, ◌<>◌, List, ◌⊎◌, inl, inr}
use mandible.Base.Result.{Result, ok, err, panic, ⊤}
use mandible.Upload.File.{Job}
use mandible.Process.Types.{ProcessType}
use mandible.Concurrent.Gather.{System, Step, Reach, start}

-- The body of a goroutine: the process, and the message that it sends.
unfoldable pub goroutine : ProcessType → Job → Result ⊤ × Job
goroutine p j =
    let (r, j') = p.process j in
    (
      elim r [
        | ok _ ↦ ok tt
        | err e ↦ err ("Error asynchronously processing on " <> (p.string <> (": " <> e)))
        | panic ↦ panic
      ],
      j',
    )

-- The body of the loop: the first error is returned.
abbrev pub first_error : ⊤ → Result ⊤ → Result ⊤ ⊎ ⊤
first_error _ (ok _) = inr tt
first_error _ (err e) = inl (err e)
first_error _ panic = inl panic

abbrev pub no_error : ⊤ → Result ⊤
no_error _ = ok tt

abbrev pub AsyncSystem : Type 0
AsyncSystem = System Job ProcessType (Result ⊤) ⊤ (Result ⊤)

-- The goroutines of these processes have been started.
abbrev pub async_start : List ProcessType → Job → AsyncSystem
async_start ps j = start goroutine first_error no_error ps tt j

abbrev pub AsyncReach : AsyncSystem → AsyncSystem → Type 0
AsyncReach = Reach goroutine first_error no_error

abbrev pub AsyncStep : AsyncSystem → AsyncSystem → Type 0
AsyncStep = Step goroutine first_error no_error
