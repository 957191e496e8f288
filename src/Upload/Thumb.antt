-- ===== src/Upload/Thumb.antt =====
-- uploadedfile/thumbfile.go
pub mod Results
pub mod Sizes
use mandible.Base.{String, ◌<>◌, Bool, not, ◌&&◌, Option, none, some, ◌==◌, string_eq}
use mandible.Base.{if◌then◌else◌}
use mandible.Base.Int.{ℤ, pos, ltb_ℤ, leb_ℤ, int_eq}
use mandible.Base.Dict.{contains}
use mandible.Base.Result.{Result, ok, err, Action, fail_if, of_result, ◌>>=◌, ◌>>◌}
use mandible.ThumbType.{ThumbType, from_mime, from_string}
use mandible.Host.{Host, Disk, Machine}
use mandible.Command.Gm.{square_thumb, circle_thumb, thumb, custom_thumb, full}
use mandible.Upload.Types.{UploadedFile, ThumbFile, max_image_side_size}
use mandible.Upload.File.{dimensions}
use mandible.Upload.Ratio.{match_ratio}

-- Go's float64 and what the crop uses of `strconv` and `math`.
pub record Floats : Type 1 where
  pub Float : Type 0
  pub parse_float : String → Option Float
  pub of_int : ℤ → Float
  pub to_int : Float → ℤ
  pub one : Float
  pub minimum : Float → Float → Float
  pub times : Float → Float → Float
  pub over : Float → Float → Float
  pub ceil : Float → Float
  pub at_least : Float → Float → Bool

unfoldable pub get_output_format : ThumbFile → UploadedFile → ThumbType
get_output_format t original =
    if not (t.desired_format == "") then from_string t.desired_format else from_mime original.mime

-- The struct is changed only if the file is there.
unfoldable pub set_path : ThumbFile → String → Action Host ThumbFile
set_path t path h = (
  if contains path h.disk
      then ok (record t { local_path = path })
      else err ("Error when creating thumbnail " <> t.name),
  h,
)

module _ (F : Floats) (m : Machine) where
  open F use {Float, parse_float, of_int, to_int, one, minimum, times, over, ceil, at_least}

  -- `if max > 0 { size = int(math.Min(float64(actual), float64(max))) }`, and 0 where the
  -- dimensions of the original cannot be read.
  abbrev limited : ℤ → ℤ → ℤ → ℤ
  limited size max actual =
      if ltb_ℤ (pos 0) max then to_int (minimum (of_int actual) (of_int max)) else size

  unfoldable pub compute_width : ThumbFile → UploadedFile → Disk → ℤ
  compute_width t original d = elim (dimensions m original d) [
    | ok (actual, _) ↦ limited t.width t.max_width actual
    | _ ↦ pos 0
  ]

  unfoldable pub compute_height : ThumbFile → UploadedFile → Disk → ℤ
  compute_height t original d = elim (dimensions m original d) [
    | ok (_, actual) ↦ limited t.height t.max_height actual
    | _ ↦ pos 0
  ]

  -- The wider side is the ratio times the other one, whichever of the two it is.
  abbrev crop_sizes : ℤ → ℤ → Float → Float → ℤ × ℤ
  crop_sizes width height w_ratio h_ratio =
      if at_least w_ratio h_ratio
      then (
        to_int (ceil (times (of_int height) (over w_ratio h_ratio))),
        to_int (ceil (times (of_int height) one)),
      )
      else (
        to_int (ceil (times (of_int width) one)),
        to_int (ceil (times (of_int width) (over h_ratio w_ratio))),
      )

  unfoldable pub compute_crop : ThumbFile → UploadedFile → Disk → Result (ℤ × ℤ)
  compute_crop t original d = elim (match_ratio t.crop_ratio) [
    | none ↦ err "Invalid crop_ratio"
    | some (w, h) ↦ elim (parse_float w) [
      | none ↦ err "Invalid crop_ratio"
      | some w_ratio ↦ elim (parse_float h) [
        | none ↦ err "Invalid crop_ratio"
        | some h_ratio ↦
            ok (
              crop_sizes (compute_width t original d) (compute_height t original d) w_ratio h_ratio)
      ]
    ]
  ]

  unfoldable pub process_square : ThumbFile → UploadedFile → Action Host ThumbFile
  process_square t original = do
    fail_if (t.width == pos 0) "Width cannot be 0"
    fail_if (ltb_ℤ max_image_side_size t.width) "Width too large"
    filename ← square_thumb m original.path t.name t.width t.quality (get_output_format t original)
    set_path t filename

  -- Circle thumbs are always PNGs.
  unfoldable pub process_circle : ThumbFile → UploadedFile → Action Host ThumbFile
  process_circle t original = do
    fail_if (t.width == pos 0) "Width cannot be 0"
    fail_if (ltb_ℤ max_image_side_size t.width) "Width too large"
    filename ← circle_thumb m original.path t.name t.width t.quality (from_string "png")
    set_path t filename

  unfoldable pub process_thumb : ThumbFile → UploadedFile → Action Host ThumbFile
  process_thumb t original = do
    fail_if (t.width == pos 0) "Width cannot be 0"
    fail_if (ltb_ℤ max_image_side_size t.width) "Width too large"
    fail_if (t.height == pos 0) "Height cannot be 0"
    fail_if (ltb_ℤ max_image_side_size t.height) "Height too large"
    filename ←
        thumb m original.path t.name t.width t.height t.quality (get_output_format t original)
    set_path t filename

  abbrev pub is_valid_side : ℤ → Bool
  is_valid_side side = ltb_ℤ (pos 0) side && leb_ℤ side max_image_side_size

  -- The crop that the ratio asks for, or the one that is given.
  unfoldable pub crop_of : ThumbFile → UploadedFile → Disk → Result (ℤ × ℤ)
  crop_of t original d =
      if not (t.crop_ratio == "")
      then compute_crop t original d
      else ok (t.crop_width, t.crop_height)

  unfoldable pub process_custom : ThumbFile → UploadedFile → Action Host ThumbFile
  process_custom t original = do
    (crop_width, crop_height) ← of_result (λ h. crop_of t original h.disk)
    (width, height) ←
        of_result (λ h. ok (compute_width t original h.disk, compute_height t original h.disk))
    let valid_width = is_valid_side width
    let valid_height = is_valid_side height
    fail_if (not valid_width && not valid_height)
        (if not valid_width then "Invalid width" else "Invalid height")
    filename ←
        custom_thumb m original.path t.name width height t.crop_gravity crop_width crop_height
          t.quality (get_output_format t original)
    set_path t filename

  unfoldable pub process_full : ThumbFile → UploadedFile → Action Host ThumbFile
  process_full t original = do
    filename ← full m original.path t.name t.quality (get_output_format t original)
    set_path t filename

  unfoldable pub process : ThumbFile → UploadedFile → Action Host ThumbFile
  process t original =
      if t.shape == "circle"
      then process_circle t original
      else if t.shape == "thumb"
      then process_thumb t original
      else if t.shape == "square"
      then process_square t original
      else if t.shape == "custom"
      then process_custom t original
      else process_full t original
