-- ===== src/Process/Scaler.antt =====
-- imageprocessor/imagescaler.go
pub mod Rounds
use mathlib.Core.Logic.{dite}
use mathlib.Core.WellFounded.{Acc}
use native.Mathlib.Decide.{dec_lt}
use mandible.Base.{
  ℕ, zero, suc, ◌<◌, ◌-◌, ◌*◌, true, false, ◌||◌, ◌==◌, string_eq, arith, if◌then◌else◌,
}
use mandible.Base.Int.{ℤ, pos, ◌-ℤ◌, ltb_ℤ, leb_ℤ, wrap64, int_eq}
use mandible.Base.Result.{ok, err, panic, Action, ⊤, ◌>>◌}
use mandible.Host.{Machine}
use mandible.Command.Gm.{convert_to_jpeg, quality, resize_percent}
use mandible.Upload.File.{Job, set_mime, file_size}
use mandible.Process.Types.{ProcessType}
use mandible.Process.Simple.{replace_by}

Acc-below : (k n : ℕ) → n < k → Acc ◌<◌ n
Acc-below zero n h = elim h [ ]
Acc-below (suc k) n h = Acc.intro n (λ i hi. Acc-below k i (omega arith))

pub lt_acc : (n : ℕ) → Acc ◌<◌ n
unfolding Acc-below
lt_acc n = Acc-below (suc n) n (omega arith)

-- `size, err = image.FileSize()` where the error is overwritten before it is read.
abbrev pub size_or_zero : Job → ℤ
size_or_zero j = elim (file_size j.image.path j.host.disk) [
  | ok size ↦ size
  | err _ ↦ pos 0
  | panic ↦ pos 0
]

-- The percentage of the first round, from the bytes that are too many.
unfoldable pub first_percent : ℤ → ℕ
first_percent excess =
    if leb_ℤ (pos (15 * 1024 * 1024)) excess
    then 30
    else if leb_ℤ (pos (10 * 1024 * 1024)) excess
    then 40
    else if leb_ℤ (pos (5 * 1024 * 1024)) excess
    then 60
    else 90

module _ (m : Machine) (target : ℤ) where
  -- `for { … percent -= 10 }`
  unfoldable pub resize_loop : (percent : ℕ) → Acc ◌<◌ percent → Action Job ⊤
  resize_loop percent (Acc.intro _ smaller) j =
      let (r, j') = replace_by (λ path. resize_percent m path (pos percent)) j in
      elim r [
        | err e ↦ (err e, j')
        | panic ↦ (panic, j')
        | ok _ ↦ elim (file_size j'.image.path j'.host.disk) [
          | err e ↦ (err e, j')
          | panic ↦ (panic, j')
          | ok size ↦
              dite (dec_lt percent 10) (λ _. (err "Could not scale image to desired filesize", j'))
                (λ more.
                  if size == pos 0
                  then (err "Could not scale image to desired filesize", j')
                  else elim (ltb_ℤ size target) [
                    | true ↦ (ok tt, j')
                    | false ↦ resize_loop (percent - 10) (smaller (percent - 10) (omega arith)) j'
                  ])
        ]
      ]

  -- `if size < this.targetSize { return nil }`, and else the rest.
  abbrev unless_fits : (ℤ → Action Job ⊤) → Action Job ⊤
  unless_fits rest j =
      let size = size_or_zero j in if ltb_ℤ size target then (ok tt, j) else rest size j

  unfoldable pub scale_jpeg : Action Job ⊤
  scale_jpeg = do
    replace_by (λ path. quality m path (pos 90))
    unless_fits λ _. do
      replace_by (λ path. quality m path (pos 70))
      unless_fits λ size.
          let percent = first_percent (wrap64 (size -ℤ target)) in
          resize_loop percent (lt_acc percent)

  unfoldable pub scale_png : Action Job ⊤
  scale_png = do
    replace_by (convert_to_jpeg m)
    λ j. scale_jpeg (record j { image = set_mime "image/jpeg" j.image })

  unfoldable pub scale : Action Job ⊤
  scale j =
      if j.image.mime == "image/jpeg" || j.image.mime == "image/jpg"
      then scale_jpeg j
      else if j.image.mime == "image/png"
      then scale_png j
      else if j.image.mime == "image/gif"
      then (err "Unimplimented", j)
      else (err "Unsuported filetype", j)

  abbrev pub image_scaler : ProcessType
  image_scaler = record { process = scale; string = "Image scaler" }
