-- ===== src/Process/Scaler/Rounds.antt =====
-- imageprocessor/imagescaler.go ends, and what it has done when it says that it succeeded.
use mathlib.Core.WellFounded.{Acc}
use mandible.Base.{
  ℕ, suc, ◌<◌, ◌≤◌, ◌+◌, ◌-◌, ◌/◌, String, ◌<>◌, ◌≡◌, refl, true, List, [], ◌∷◌, arith, length,
  string_eq,
}
use mandible.Base.Text.{show_int}
use mandible.Base.Int.{ℤ, pos, ◌-ℤ◌, ltb_ℤ, wrap64, int_eq}
use mandible.Base.Result.{ok, Action}
use mandible.Host.{Host, Machine}
use mandible.Command.Runner.{run_processor_command}
use mandible.Command.Gm.{convert_to_jpeg, quality, resize_percent}
use mandible.Upload.File.{Job, set_mime}
use mandible.Process.Simple.{replace_by}
use mandible.Process.Scaler.{
  lt_acc, first_percent, resize_loop, scale_jpeg, scale_png, scale, size_or_zero,
}

-- The commands started so far.
abbrev pub started : Job → ℕ
started j = length j.host.ran

replace_by-started :
    (m : Machine) (command : String → Action Host String) (j : Job)
    → ((path : String) (h : Host) → length (command path h).1.ran ≡ suc (length h.ran))
    → started (replace_by command j).1 ≡ suc (started j)
unfolding replace_by
replace_by-started m command j h = ground (arith, h j.image.path j.host)

run_processor_command-started :
    (m : Machine) (command : String) (args : List String) (h : Host)
    → length (run_processor_command m command args h).1.ran ≡ suc (length h.ran)
unfolding run_processor_command
run_processor_command-started m command args h = refl

module _ (m : Machine) where
  resize_percent-started :
      (percent : ℤ) (j : Job)
      → started (replace_by (λ path. resize_percent m path percent) j).1 ≡ suc (started j)
  unfolding resize_percent
  resize_percent-started percent j =
      replace_by-started m (λ path. resize_percent m path percent) j
        (λ path h. ground (
          arith,
          run_processor_command-started m "gm"
              ("convert" ∷ path ∷ "-resize" ∷ (show_int percent <> "%") ∷ (path <> "_rp") ∷ []) h,
        ))

  quality-started :
      (q : ℤ) (j : Job) → started (replace_by (λ path. quality m path q) j).1 ≡ suc (started j)
  unfolding quality
  quality-started q j =
      replace_by-started m (λ path. quality m path q) j
        (λ path h. ground (
          arith,
          run_processor_command-started m "gm"
              ("convert"
                ∷ path
                ∷ "-quality"
                ∷ show_int q
                ∷ "-density"
                ∷ "72x72"
                ∷ (path <> "_q")
                ∷ [])
              h,
        ))

  module _ (target : ℤ) where
    resize_loop-started :
        (percent : ℕ) (w : Acc ◌<◌ percent) (j : Job)
        → started (resize_loop m target percent w j).1 ≤ started j + percent / 10 + 1
    unfolding resize_loop
    resize_loop-started percent (Acc.intro _ smaller) j = grind (
      arith,
      resize_percent-started (pos percent) j,
      λ (p : percent - 10 < percent).
          resize_loop-started (percent - 10) (smaller (percent - 10) p)
            (replace_by (λ path. resize_percent m path (pos percent)) j).1,
    )

    resize_loop-fits :
        (percent : ℕ) (w : Acc ◌<◌ percent) (j : Job)
        → (resize_loop m target percent w j).0 ≡ ok tt
        → ltb_ℤ (size_or_zero (resize_loop m target percent w j).1) target ≡ true
    unfolding resize_loop
    resize_loop-fits percent (Acc.intro _ smaller) j h = grind (
      arith,
      λ (p : percent - 10 < percent).
          resize_loop-fits (percent - 10) (smaller (percent - 10) p)
            (replace_by (λ path. resize_percent m path (pos percent)) j).1,
    )

    -- The percentage of the first round is at most 90.
    first_percent-le : (excess : ℤ) → first_percent excess ≤ 90
    unfolding first_percent
    first_percent-le excess = ground arith

    -- The upload after the first and the second of the two calls that lower the quality.
    abbrev pub at_90 : Job → Job
    at_90 j = (replace_by (λ path. quality m path (pos 90)) j).1

    abbrev pub at_70 : Job → Job
    at_70 j = (replace_by (λ path. quality m path (pos 70)) (at_90 j)).1

    abbrev pub percent_of : Job → ℕ
    percent_of j = first_percent (wrap64 (size_or_zero (at_70 j) -ℤ target))

    scale_jpeg-started : (j : Job) → started (scale_jpeg m target j).1 ≤ started j + 12
    unfolding scale_jpeg
    scale_jpeg-started j = ground (
      arith,
      quality-started (pos 90) j,
      quality-started (pos 70) (at_90 j),
      resize_loop-started (percent_of j) (lt_acc (percent_of j)) (at_70 j),
      first_percent-le (wrap64 (size_or_zero (at_70 j) -ℤ target)),
    )

    scale_jpeg-fits :
        (j : Job)
        → (scale_jpeg m target j).0 ≡ ok tt
        → ltb_ℤ (size_or_zero (scale_jpeg m target j).1) target ≡ true
    unfolding scale_jpeg
    scale_jpeg-fits j h =
        ground (arith, resize_loop-fits (percent_of j) (lt_acc (percent_of j)) (at_70 j))

    convert_to_jpeg-started :
        (j : Job) → started (replace_by (convert_to_jpeg m) j).1 ≡ suc (started j)
    unfolding convert_to_jpeg
    convert_to_jpeg-started j = replace_by-started m (convert_to_jpeg m) j (λ path h. ground (
      arith,
      run_processor_command-started m "gm"
          ("convert" ∷ path ∷ "-flatten" ∷ ("JPEG:" <> (path <> "_jpg")) ∷ []) h,
    ))

    abbrev pub as_jpeg : Job → Job
    as_jpeg j =
        let j' = (replace_by (convert_to_jpeg m) j).1 in
        record j' { image = set_mime "image/jpeg" j'.image }

    -- Whatever the commands do, the scaler ends, and has started at most thirteen of them.
    pub scale-started : (j : Job) → started (scale m target j).1 ≤ started j + 13
    unfolding scale scale_png
    scale-started j =
        ground
          (arith, scale_jpeg-started j, convert_to_jpeg-started j, scale_jpeg-started (as_jpeg j))

    -- When the scaler says that it succeeded, the file that the upload now has is smaller than the
    -- target, a size that cannot be read taken as zero.
    pub scale-fits :
        (j : Job)
        → (scale m target j).0 ≡ ok tt
        → ltb_ℤ (size_or_zero (scale m target j).1) target ≡ true
    unfolding scale scale_png
    scale-fits j h = ground (arith, scale_jpeg-fits j, scale_jpeg-fits (as_jpeg j))
