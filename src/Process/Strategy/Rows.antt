-- ===== src/Process/Strategy/Rows.antt =====
-- The processes of imageprocessor/imageprocessor.go that come before the thumbnails leave these as they
-- are.
use mathlib.Core.WellFounded.{Acc}
use mandible.Base.{
  ℕ, ◌<◌, ◌-◌, String, ◌≡◌, refl, ◌∙◌, List, [], ◌∷◌, ◌++◌, arith, All, inl, inr, string_eq,
}
use mandible.Base.Int.{ℤ, pos, int_eq}
use mandible.Base.Result.{ok, Action, Result-cases}
use mandible.Host.{Host, Machine}
use mandible.Command.Gm.{convert_to_jpeg, quality, resize_percent, fix_orientation}
use mandible.Command.Tools.{jpegtran, optipng}
use mandible.Upload.File.{Job, set_path}
use mandible.Process.Types.{ProcessType, run_all}
use mandible.Process.Simple.{
  replace_by, image_orienter, compress, compress_losslessly, strip, exif_stripper,
}
use mandible.Process.Scaler.{lt_acc, resize_loop, scale_jpeg, scale_png, scale, image_scaler}
use mandible.Process.Scaler.Rounds.{at_90, at_70, as_jpeg, percent_of}

abbrev pub KeepsThumbs : ProcessType → Type 0
KeepsThumbs p = (j : Job) → (p.process j).1.image.thumbs ≡ j.image.thumbs

replace_by-thumbs :
    (command : String → Action Host String) (j : Job)
    → (replace_by command j).1.image.thumbs ≡ j.image.thumbs
unfolding replace_by set_path
replace_by-thumbs command j = ground arith

module _ (m : Machine) where
  pub image_orienter-KeepsThumbs : KeepsThumbs (image_orienter m)
  image_orienter-KeepsThumbs = replace_by-thumbs (fix_orientation m)

  pub compress-KeepsThumbs : KeepsThumbs (compress_losslessly m)
  unfolding compress
  compress-KeepsThumbs j =
      ground (arith, replace_by-thumbs (jpegtran m) j, replace_by-thumbs (optipng m) j)

  pub strip-KeepsThumbs : KeepsThumbs (exif_stripper m)
  unfolding strip
  strip-KeepsThumbs j = ground arith

  module _ (target : ℤ) where
    resize_loop-thumbs :
        (percent : ℕ) (w : Acc ◌<◌ percent) (j : Job)
        → (resize_loop m target percent w j).1.image.thumbs ≡ j.image.thumbs
    unfolding resize_loop
    resize_loop-thumbs percent (Acc.intro _ smaller) j = grind (
      arith,
      replace_by-thumbs (λ path. resize_percent m path (pos percent)) j,
      λ (p : percent - 10 < percent).
          resize_loop-thumbs (percent - 10) (smaller (percent - 10) p)
            (replace_by (λ path. resize_percent m path (pos percent)) j).1,
    )

    scale_jpeg-thumbs : (j : Job) → (scale_jpeg m target j).1.image.thumbs ≡ j.image.thumbs
    unfolding scale_jpeg
    scale_jpeg-thumbs j = ground (
      arith,
      replace_by-thumbs (λ path. quality m path (pos 90)) j,
      replace_by-thumbs (λ path. quality m path (pos 70)) (at_90 m target j),
      resize_loop-thumbs (percent_of m target j) (lt_acc (percent_of m target j))
          (at_70 m target j),
    )

    pub scale-KeepsThumbs : KeepsThumbs (image_scaler m target)
    unfolding scale scale_png
    scale-KeepsThumbs j = ground (
      arith,
      scale_jpeg-thumbs j,
      replace_by-thumbs (convert_to_jpeg m) j,
      scale_jpeg-thumbs (as_jpeg m target j),
    )

-- A run that succeeds ends with a success of its last process, on an upload with the same thumbnails.
pub run_all-last :
    (context : String) (ps : List ProcessType) (p : ProcessType) (j : Job)
    → All KeepsThumbs ps
    → (run_all context (ps ++ (p ∷ [])) j).0 ≡ ok tt
    → (k : Job) × (k.image.thumbs ≡ j.image.thumbs)
      × ((p.process k).0 ≡ ok tt)
      × ((run_all context (ps ++ (p ∷ [])) j).1 ≡ (p.process k).1)
unfolding run_all
run_all-last context [] p j keep h = elim (Result-cases (p.process j).0) [
  | inl (_, e) ↦ (j, refl, e, ground (arith, e))
  | inr (inl e) ↦ absurd (ground arith)
  | inr (inr e) ↦ absurd (ground arith)
]
run_all-last context (q ∷ ps) p j (keeps, keep) h = elim (Result-cases (q.process j).0) [
  | inl (_, e) ↦
      let (k, thumbs, done, same) =
        run_all-last context ps p (q.process j).1 keep (ground (arith, e, h)) in
      (k, thumbs ∙ keeps j, done, ground (arith, e, same))
  | inr (inl e) ↦ absurd (ground arith)
  | inr (inr e) ↦ absurd (ground arith)
]
