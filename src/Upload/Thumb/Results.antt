-- ===== src/Upload/Thumb/Results.antt =====
-- What uploadedfile/thumbfile.go has done when it has made a thumbnail.
use mandible.Base.{◌≡◌, true, arith, inl, inr, string_eq}
use mandible.Base.Int.{int_eq}
use mandible.Base.Dict.{contains}
use mandible.Base.Result.{ok, Result-cases}
use mandible.Host.{Host, Machine}
use mandible.ThumbType.{from_string}
use mandible.Command.Gm.{derived}
use mandible.Command.Gm.Outfiles.{
  square_thumb-Wrote, circle_thumb-Wrote, thumb-Wrote, custom_thumb-Wrote, full-Wrote,
}
use mandible.Upload.Types.{UploadedFile, ThumbFile}
use mandible.Upload.Thumb.{
  Floats, set_path, get_output_format, process_square, process_circle, process_thumb,
  process_custom, process_full, process, crop_of, compute_width, compute_height,
}

-- The thumbnail `t` of `u` is made: it has the path that is named after both, there is a file at that
-- path, and nothing else of it has changed.
pub record IsMade (u : UploadedFile) (t t' : ThumbFile) (h : Host) : Type 0 where
  pub placed : t' ≡ record t { local_path = derived u.path t.name }
  pub there : contains (derived u.path t.name) h.disk ≡ true

module _ (F : Floats) (m : Machine) (t : ThumbFile) (u : UploadedFile) (h h' : Host)
    (t' : ThumbFile) where
  process_full-IsMade : process_full F m t u h ≡ (ok t', h') → IsMade u t t' h'
  unfolding process_full set_path
  process_full-IsMade e =
      ground (arith, full-Wrote m u.path t.name t.quality (get_output_format t u) h)

  process_square-IsMade : process_square F m t u h ≡ (ok t', h') → IsMade u t t' h'
  unfolding process_square set_path
  process_square-IsMade e =
      ground (arith, square_thumb-Wrote m u.path t.name t.width t.quality (get_output_format t u) h)

  process_circle-IsMade : process_circle F m t u h ≡ (ok t', h') → IsMade u t t' h'
  unfolding process_circle set_path
  process_circle-IsMade e =
      ground (arith, circle_thumb-Wrote m u.path t.name t.width t.quality (from_string "png") h)

  process_thumb-IsMade : process_thumb F m t u h ≡ (ok t', h') → IsMade u t t' h'
  unfolding process_thumb set_path
  process_thumb-IsMade e =
      ground
        (arith, thumb-Wrote m u.path t.name t.width t.height t.quality (get_output_format t u) h)

  process_custom-IsMade : process_custom F m t u h ≡ (ok t', h') → IsMade u t t' h'
  unfolding process_custom set_path
  process_custom-IsMade e = elim (Result-cases (crop_of F m t u h.disk)) [
    | inl ((crop_width, crop_height), k) ↦ ground (
      arith,
      custom_thumb-Wrote m u.path t.name (compute_width F m t u h.disk)
          (compute_height F m t u h.disk) t.crop_gravity crop_width crop_height t.quality
          (get_output_format t u) h,
    )
    | inr k ↦ ground arith
  ]

  -- A thumbnail of any shape that is made lies in a file that is named after the upload and itself,
  -- that file is there, and nothing else of the thumbnail has changed.
  pub process-IsMade : process F m t u h ≡ (ok t', h') → IsMade u t t' h'
  unfolding process
  process-IsMade e = ground (
    arith, process_full-IsMade, process_square-IsMade, process_circle-IsMade, process_thumb-IsMade,
    process_custom-IsMade,
  )
