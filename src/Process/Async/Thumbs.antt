-- ===== src/Process/Async/Thumbs.antt =====
-- The thumbnails that imageprocessor/imageprocessor.go makes all at once.
use mathlib.Core.Path.{ap}
use mandible.Base.{ℕ, ◌≡◌, refl, ◌∙◌, some, get_elem?}
use mandible.Base.Result.{ok}
use mandible.Host.{Machine}
use mandible.Command.Gm.{derived}
use mandible.Upload.Types.{ThumbFile}
use mandible.Upload.File.{Job}
use mandible.Upload.Thumb.{Floats}
use mandible.Process.Strategy.{thumb_processes}
use mandible.Process.Strategy.Thumbs.{async_process-made}
use mandible.Concurrent.Gather.{Caller}
use mandible.Process.Async.{AsyncSystem, async_start, AsyncReach}
use mandible.Process.Async.Orders.{AsyncReach-async_process}

-- In whichever way the goroutines for the thumbnails of an upload take turns, if the call returns
-- without an error, then each of the thumbnails has the file named after both, and is else as it was.
pub AsyncReach-made :
    (F : Floats) (m : Machine) (j : Job) (s : AsyncSystem) (i : ℕ) (t : ThumbFile)
    → AsyncReach (async_start (thumb_processes F m 0 j.image.thumbs) j) s
    → s.caller ≡ Caller.returned (ok tt)
    → get_elem? j.image.thumbs i ≡ some t
    → get_elem? s.shared.image.thumbs i
      ≡ some (record t { local_path = derived j.image.path t.name })
AsyncReach-made F m j s i t reach c found =
    let (ends, perm, gives, leaves) =
      AsyncReach-async_process (thumb_processes F m 0 j.image.thumbs) j s (ok tt) reach c in
    ap (λ (k : Job). get_elem? k.image.thumbs i) (leaves refl)
    ∙ async_process-made F m (λ _ _. ends) j i t perm found gives
