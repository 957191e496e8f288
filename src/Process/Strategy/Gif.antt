-- ===== src/Process/Strategy/Gif.antt =====
-- imageprocessor/imageprocessor.go with a GIF that is too large.
use mathlib.Core.Path.{subst}
use mandible.Base.{String, ◌≡◌, ◌≢◌, true, List, [], ◌∷◌, ◌++◌, arith, inl, inr, string_eq, All}
use mandible.Base.Int.{ℤ, ltb_ℤ}
use mandible.Base.Result.{Result, ok, err, panic, Action, Result-cases}
use mandible.Config.{Configuration}
use mandible.Host.{Host, Machine}
use mandible.Command.Gm.{fix_orientation}
use mandible.Command.Tools.{jpegtran, optipng}
use mandible.Upload.File.{Job, file_size, set_path}
use mandible.Upload.Thumb.{Floats}
use mandible.Process.Types.{multi_process, ProcessType, run_all, async_process}
use mandible.Process.Ocr.{duel_ocr_strategy}
use mandible.Process.Simple.{
  replace_by, image_orienter, compress, compress_losslessly, strip, exif_stripper,
}
use mandible.Process.Scaler.{scale, image_scaler}
use mandible.Process.Strategy.{Schedule, thumb_processes, everything, everything_strategy}

abbrev pub IsGif : Job → Type 0
IsGif j = j.image.mime ≡ "image/gif"

-- A strategy's result that does not process this upload with success.
abbrev Refuses : Job → Result ProcessType → Type 0
Refuses j (ok p) = (p.process j).0 ≢ ok tt
Refuses j (err _) = Unit
Refuses j panic = Unit

-- A process that keeps the type.
abbrev Keeps : ProcessType → Type 0
Keeps p = (j : Job) → IsGif j → IsGif (p.process j).1

-- A run with a process in it that never succeeds on a GIF does not succeed, if those in front of it
-- keep the type.
run_all-refused :
    (context : String) (ps rest : List ProcessType) (p : ProcessType)
    → All Keeps ps
    → ((j : Job) → IsGif j → (p.process j).0 ≢ ok tt)
    → (j : Job) → IsGif j
    → (run_all context (ps ++ (p ∷ rest)) j).0 ≢ ok tt
unfolding run_all
run_all-refused context [] rest p k f j g = elim (Result-cases (p.process j).0) [
  | inl (_, e) ↦ absurd (f j g e)
  | inr (inl e) ↦ ground arith
  | inr (inr e) ↦ ground arith
]
run_all-refused context (q ∷ ps) rest p (k, ks) f j g = elim (Result-cases (q.process j).0) [
  | inl (_, e) ↦ ground (arith, run_all-refused context ps rest p ks f (q.process j).1 (k j g))
  | inr (inl e) ↦ ground arith
  | inr (inr e) ↦ ground arith
]

module _ (m : Machine) where
  replace_by-IsGif :
      (command : String → Action Host String) (j : Job) → IsGif j → IsGif (replace_by command j).1
  unfolding replace_by set_path
  replace_by-IsGif command j g = ground arith

  compress-IsGif : Keeps (compress_losslessly m)
  unfolding compress
  compress-IsGif j g =
      ground (arith, replace_by-IsGif (jpegtran m) j g, replace_by-IsGif (optipng m) j g)

  strip-IsGif : Keeps (exif_stripper m)
  unfolding strip
  strip-IsGif j g = ground arith

  scale-IsGif : (target : ℤ) (j : Job) → IsGif j → (scale m target j).0 ≢ ok tt
  unfolding scale
  scale-IsGif target j g = rw g (ground arith)

  -- A GIF whose size can be read and is larger than the configured one is never processed with success
  -- by the strategy that does everything.
  pub everything_strategy-gif :
      (F : Floats) (schedule : Schedule) (cfg : Configuration) (j : Job) (size : ℤ)
      (p : ProcessType)
      → IsGif j
      → file_size j.image.path j.host.disk ≡ ok size
      → ltb_ℤ cfg.max_file_size size ≡ true
      → everything_strategy F m schedule cfg j ≡ ok p
      → (p.process j).0 ≢ ok tt
  unfolding everything_strategy everything
  everything_strategy-gif F schedule cfg j size p g s l e =
      let last =
        async_process schedule.processes
          (duel_ocr_strategy m schedule.ocr ∷ thumb_processes F m 0 j.image.thumbs) in
      let refused =
        run_all-refused "Error multiprocessing on "
          (image_orienter m ∷ compress_losslessly m ∷ exif_stripper m ∷ []) (last ∷ [])
          (image_scaler m cfg.max_file_size)
          (replace_by-IsGif (fix_orientation m), (compress-IsGif, (strip-IsGif, tt)))
          (scale-IsGif cfg.max_file_size) j g in
      let same : ok (multi_process (everything F m schedule cfg j.image size)) ≡ ok p =
        ground arith in
      subst (Refuses j) same (rw l refused)
