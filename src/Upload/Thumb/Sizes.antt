-- ===== src/Upload/Thumb/Sizes.antt =====
-- Which sizes uploadedfile/thumbfile.go lets through to a command.
use mathlib.Core.Path.{subst}
use mandible.Base.{ℕ, suc, ◌≤◌, ◌^◌, ◌≡◌, refl, ◌≢◌, arith, length, ◌⊎◌, string_eq}
use mandible.Base.{if◌then◌else◌}
use mandible.Base.Int.{ℤ, pos, negsuc, ltb_ℤ, leb_ℤ, int_eq, ◌≤ℤ◌, ◌<ℤ◌}
use mandible.Base.Result.{Result, ok, err}
use mandible.Host.{Host, Machine}
use mandible.Upload.Types.{UploadedFile, ThumbFile, max_image_side_size}
use mandible.Upload.File.{dimensions}
use mandible.Upload.Thumb.{
  Floats, set_path, get_output_format, process_square, process_circle, process_thumb,
  process_custom, process, crop_of, compute_width, compute_height,
}
use mandible.Command.Gm.Outfiles.{square_thumb-Wrote, custom_thumb-Wrote}

-- A side that is not zero, and at most the largest that is allowed.
abbrev pub IsAllowed : ℤ → Type 0
IsAllowed side = (side ≢ pos 0) × (side ≤ℤ max_image_side_size)

-- The sides that are tested for a shape.
abbrev pub AreAllowed : ThumbFile → Type 0
AreAllowed t =
    (t.shape ≡ "square" → IsAllowed t.width)
    × (t.shape ≡ "circle" → IsAllowed t.width)
    × (t.shape ≡ "thumb" → IsAllowed t.width × IsAllowed t.height)

-- Out of the range that is allowed for the sides of a custom thumbnail.
abbrev pub IsOut : ℤ → Type 0
IsOut side = (side ≤ℤ pos 0) ⊎ (max_image_side_size <ℤ side)

module _ (F : Floats) (m : Machine) (t : ThumbFile) (u : UploadedFile) (h : Host) where
  process-square : t.shape ≡ "square" → process F m t u h ≡ process_square F m t u h
  unfolding process
  process-square s = rw s refl

  process-circle : t.shape ≡ "circle" → process F m t u h ≡ process_circle F m t u h
  unfolding process
  process-circle s = rw s refl

  process-thumb : t.shape ≡ "thumb" → process F m t u h ≡ process_thumb F m t u h
  unfolding process
  process-thumb s = rw s refl

  -- A command has been started.
  abbrev pub HasStarted : Result ThumbFile × Host → Type 0
  HasStarted (_, h') = length h'.ran ≢ length h.ran

  process_square-IsAllowed : HasStarted (process_square F m t u h) → IsAllowed t.width
  unfolding process_square
  process_square-IsAllowed e = ground arith

  process_circle-IsAllowed : HasStarted (process_circle F m t u h) → IsAllowed t.width
  unfolding process_circle
  process_circle-IsAllowed e = ground arith

  process_thumb-IsAllowed :
      HasStarted (process_thumb F m t u h) → IsAllowed t.width × IsAllowed t.height
  unfolding process_thumb
  process_thumb-IsAllowed e = ground arith

  -- A command is started for a square, for a circle or for a thumbnail that keeps its ratio only if
  -- the sides that its shape needs are allowed.
  pub process-AreAllowed : HasStarted (process F m t u h) → AreAllowed t
  process-AreAllowed e = (
    λ s. process_square-IsAllowed (subst HasStarted (process-square s) e),
    λ s. process_circle-IsAllowed (subst HasStarted (process-circle s) e),
    λ s. process_thumb-IsAllowed (subst HasStarted (process-thumb s) e),
  )

  -- A negative width passes as an allowed one: it is handed to the command.
  pub process_square-negative :
      (n : ℕ) → t.width ≡ negsuc n → suc (length h.ran) ≤ length (process_square F m t u h).1.ran
  unfolding process_square set_path
  process_square-negative n e =
      ground (arith, square_thumb-Wrote m u.path t.name t.width t.quality (get_output_format t u) h)

  -- A custom thumbnail whose crop can be computed is refused if both of its sides are out of range,
  -- always with the message about the width, and with nothing started. If only one of them is out of
  -- range, or none, then a command is started all the same.
  pub process_custom-IsOut :
      (crop : ℤ × ℤ)
      → crop_of F m t u h.disk ≡ ok crop
      → (IsOut (compute_width F m t u h.disk)
          → IsOut (compute_height F m t u h.disk)
          → process_custom F m t u h ≡ (err "Invalid width", h))
        × (¬ IsOut (compute_width F m t u h.disk)
            → suc (length h.ran) ≤ length (process_custom F m t u h).1.ran)
        × (¬ IsOut (compute_height F m t u h.disk)
            → suc (length h.ran) ≤ length (process_custom F m t u h).1.ran)
  unfolding process_custom set_path
  process_custom-IsOut crop c =
      let wrote =
        custom_thumb-Wrote m u.path t.name (compute_width F m t u h.disk)
          (compute_height F m t u h.disk) t.crop_gravity crop.0 crop.1 t.quality
          (get_output_format t u) h in
      (λ x y. ground arith, λ x. ground (arith, wrote), λ y. ground (arith, wrote))

  -- Where floats give the minimum of two sizes below 2 ^ 53, the actual width can be read, and it and
  -- `max_width` are below that bound, the computed width is the smaller one of the two, if there is a
  -- `max_width`, and the width that was asked for if not.
  pub compute_width_min :
      (actual : ℤ × ℤ)
      → dimensions m u h.disk ≡ ok actual
      → ((a b : ℤ)
          → pos 0 ≤ℤ a
          → a <ℤ pos (2 ^ 53)
          → pos 0 ≤ℤ b
          → b <ℤ pos (2 ^ 53)
          → F.to_int (F.minimum (F.of_int a) (F.of_int b)) ≡ (if leb_ℤ a b then a else b))
      → pos 0 ≤ℤ actual.0
      → actual.0 <ℤ pos (2 ^ 53)
      → t.max_width <ℤ pos (2 ^ 53)
      → compute_width F m t u h.disk ≡ (
          if ltb_ℤ (pos 0) t.max_width
          then (if leb_ℤ actual.0 t.max_width then actual.0 else t.max_width)
          else t.width)
  unfolding compute_width
  compute_width_min actual d exact a b c = ground (arith, exact actual.0 t.max_width)
