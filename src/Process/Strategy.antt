-- ===== src/Process/Strategy.antt =====
-- imageprocessor/imageprocessor.go: which processes an upload goes through.
pub mod Gif
pub mod Thumbs
pub mod Rows
pub mod Everything
use mandible.Base.{ℕ, ◌+◌, List, [], ◌∷◌, ◌++◌, if◌then◌else◌}
use mandible.Base.Int.{ℤ, ltb_ℤ}
use mandible.Base.Result.{Result, ok, err, panic}
use mandible.Config.{Configuration}
use mandible.Host.{Host, Machine}
use mandible.Command.Ocr.{OcrCommand}
use mandible.Upload.Types.{ThumbFile, UploadedFile}
use mandible.Upload.File.{Job, file_size}
use mandible.Upload.Thumb.{Floats}
use mandible.Process.Types.{ProcessType, Order, multi_process, async_process}
use mandible.Process.Ocr.{duel_ocr_strategy}
use mandible.Process.Simple.{image_orienter, compress_losslessly, exif_stripper, thumb_process}
use mandible.Process.Scaler.{image_scaler}

-- The orders in which the goroutines of the two loops end.
pub record Schedule : Type 0 where
  pub processes : Order Job ProcessType
  pub ocr : Order Host OcrCommand

-- `ImageProcessorStrategy`; `ImageProcessor.Run` is the process of the result.
abbrev pub ImageProcessorStrategy : Type 0
ImageProcessorStrategy = Configuration → Job → Result ProcessType

abbrev pub passthrough_strategy : ImageProcessorStrategy
passthrough_strategy cfg j = ok (multi_process [])

module _ (F : Floats) (m : Machine) where
  -- The thumbnails from index `i` on, as processes.
  unfoldable pub thumb_processes : ℕ → List ThumbFile → List ProcessType
  thumb_processes i [] = []
  thumb_processes i (t ∷ ts) = thumb_process F m i t ∷ thumb_processes (i + 1) ts

  module _ (schedule : Schedule) where
    unfoldable pub thumbnail_strategy : ImageProcessorStrategy
    unfolding thumb_processes
    thumbnail_strategy cfg j =
        ok (async_process schedule.processes (thumb_processes 0 j.image.thumbs))

    -- The processes in a row, then the recognition of text and the thumbnails all at once.
    unfoldable pub everything : Configuration → UploadedFile → ℤ → List ProcessType
    unfolding thumb_processes
    everything cfg image size =
        (image_orienter m ∷ compress_losslessly m ∷ exif_stripper m ∷ [])
        ++ ((if ltb_ℤ cfg.max_file_size size then image_scaler m cfg.max_file_size ∷ [] else [])
            ++ (async_process schedule.processes
                  (duel_ocr_strategy m schedule.ocr ∷ thumb_processes 0 image.thumbs)
                ∷ []))

    unfoldable pub everything_strategy : ImageProcessorStrategy
    unfolding everything file_size
    everything_strategy cfg j = elim (file_size j.image.path j.host.disk) [
      | err e ↦ err e
      | panic ↦ panic
      | ok size ↦ ok (multi_process (everything cfg j.image size))
    ]
