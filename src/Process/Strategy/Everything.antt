-- ===== src/Process/Strategy/Everything.antt =====
-- What the strategy of imageprocessor/imageprocessor.go that does everything has done when it succeeds.
use mathlib.Core.Path.{subst}
use mathlib.Core.List.{Permᴰ}
use mandible.Base.{
  ℕ, String, ◌≡◌, refl, sym, ap, ◌∙◌, List, [], ◌∷◌, ◌++◌, some, arith, All, inl, inr, get_elem?,
  Bool-cases,
}
use mandible.Base.Int.{ℤ, ltb_ℤ}
use mandible.Base.Permuted.{All-Permᴰ, Some-Permᴰ}
use mandible.Base.Result.{Result, ok, err, panic, Result-cases}
use mandible.Config.{Configuration}
use mandible.Host.{Machine}
use mandible.Command.Gm.{derived}
use mandible.Command.Ocr.{OcrCommand}
use mandible.Upload.Types.{ThumbFile}
use mandible.Upload.File.{Job, file_size}
use mandible.Upload.Thumb.{Floats}
use mandible.Process.Types.{ProcessType, multi_process, async_process}
use mandible.Process.Ocr.{ocr_runner, duel_ocr_strategy}
use mandible.Process.Simple.{image_orienter, compress_losslessly, exif_stripper}
use mandible.Process.Scaler.{image_scaler}
use mandible.Process.Strategy.{Schedule, thumb_processes, everything, everything_strategy}
use mandible.Process.Strategy.Thumbs.{
  Keeps, Makes, run_all-Makes, thumb_processes-Keeps, thumb_processes-Makes,
}
use mandible.Process.Strategy.Rows.{
  KeepsThumbs, image_orienter-KeepsThumbs, compress-KeepsThumbs, strip-KeepsThumbs,
  scale-KeepsThumbs, run_all-last,
}

-- A run of the recognition of text that succeeds changes only the text of the upload.
ocr_runner-image :
    (command : OcrCommand) (j : Job)
    → ((ocr_runner command).process j).0 ≡ ok tt
    → (((ocr_runner command).process j).1.image.path ≡ j.image.path)
      × (((ocr_runner command).process j).1.image.thumbs ≡ j.image.thumbs)
ocr_runner-image command j h = ground arith

module _ (F : Floats) (m : Machine) (schedule : Schedule) (i : ℕ) (t : ThumbFile) where
  ocr_runner-Keeps :
      (command : OcrCommand) (path : String) → Keeps F m path i t (ocr_runner command)
  ocr_runner-Keeps command path = (
    λ j e (p, (x, there)).
        let (same, thumbs) = ocr_runner-image command j e in
        (same ∙ p, (x, ap (λ ts. get_elem? ts i) thumbs ∙ there)),
    λ j e (p, done).
        let (same, thumbs) = ocr_runner-image command j e in
        (same ∙ p, ap (λ ts. get_elem? ts i) thumbs ∙ done),
  )

  -- The recognition of text and the thumbnails.
  abbrev at_once : List ThumbFile → List ProcessType
  at_once thumbs = duel_ocr_strategy m schedule.ocr ∷ thumb_processes F m 0 thumbs

  abbrev last : List ThumbFile → ProcessType
  last thumbs = async_process schedule.processes (at_once thumbs)

  -- The thumbnail is made, for the path that the upload has now.
  abbrev pub IsMadeIn : Job → Type 0
  IsMadeIn k =
      get_elem? k.image.thumbs i ≡ some (record t { local_path = derived k.image.path t.name })

  last-made :
      (thumbs : List ThumbFile) (k : Job)
      → Permᴰ (schedule.processes k (at_once thumbs)) (at_once thumbs)
      → get_elem? thumbs i ≡ some t
      → k.image.thumbs ≡ thumbs
      → ((last thumbs).process k).0 ≡ ok tt
      → IsMadeIn ((last thumbs).process k).1
  last-made thumbs k perm found same done =
      let path = k.image.path in
      let order = schedule.processes k (at_once thumbs) in
      let keeps =
        All-Permᴰ (Keeps F m path i t) perm
          (ocr_runner-Keeps _ path, thumb_processes-Keeps F m path i t 0 thumbs) in
      let makes =
        Some-Permᴰ (Makes F m path i t) perm
          (inr (thumb_processes-Makes F m path i t 0 i thumbs found (omega arith))) in
      let (kept, made) =
        run_all-Makes F m path i t "Error asynchronously processing on " order keeps makes k done
          (refl, (t.local_path, ap (λ ts. get_elem? ts i) same ∙ found)) in
      made ∙ ap (λ q. some (record t { local_path = derived q t.name })) (sym kept)

  -- The processes in front of the last, of which one may be the scaler.
  row-made :
      (cfg : Configuration) (j : Job) (before : List ProcessType)
      → All KeepsThumbs before
      → ((k : Job) → Permᴰ (schedule.processes k (at_once j.image.thumbs)) (at_once j.image.thumbs))
      → get_elem? j.image.thumbs i ≡ some t
      → ((multi_process (before ++ (last j.image.thumbs ∷ []))).process j).0 ≡ ok tt
      → IsMadeIn ((multi_process (before ++ (last j.image.thumbs ∷ []))).process j).1
  row-made cfg j before keep perm found done =
      let (k, thumbs, ended, same) =
        run_all-last "Error multiprocessing on " before (last j.image.thumbs) j keep done in
      subst IsMadeIn (sym same) (last-made j.image.thumbs k (perm k) found thumbs ended)

  -- A process that, if it succeeds, has made the thumbnail.
  abbrev MakesIn : Job → Result ProcessType → Type 0
  MakesIn j (ok p) = (p.process j).0 ≡ ok tt → IsMadeIn (p.process j).1
  MakesIn j (err _) = Unit
  MakesIn j panic = Unit

  everything-MakesIn :
      (cfg : Configuration) (j : Job) (size : ℤ)
      → ((k : Job) → Permᴰ (schedule.processes k (at_once j.image.thumbs)) (at_once j.image.thumbs))
      → get_elem? j.image.thumbs i ≡ some t
      → MakesIn j (ok (multi_process (everything F m schedule cfg j.image size)))
  unfolding everything
  everything-MakesIn cfg j size perm found = elim (Bool-cases (ltb_ℤ cfg.max_file_size size)) [
    | inl y ↦ rw y (
        row-made cfg j
          (image_orienter m
            ∷ compress_losslessly m
            ∷ exif_stripper m
            ∷ image_scaler m cfg.max_file_size
            ∷ [])
          (
            image_orienter-KeepsThumbs m,
            (
              compress-KeepsThumbs m,
              (strip-KeepsThumbs m, (scale-KeepsThumbs m cfg.max_file_size, tt)),
            ),
          )
          perm found)
    | inr n ↦ rw n (
        row-made cfg j (image_orienter m ∷ compress_losslessly m ∷ exif_stripper m ∷ [])
          (image_orienter-KeepsThumbs m, (compress-KeepsThumbs m, (strip-KeepsThumbs m, tt))) perm
          found)
  ]

  -- When the strategy that does everything succeeds, in whichever order the goroutines of its last
  -- process end, each thumbnail of the upload has the file named after it and the file that the upload
  -- then has, and is else as it was.
  pub everything_strategy-made :
      (cfg : Configuration) (j : Job) (p : ProcessType)
      → ((k : Job) (ps : List ProcessType) → Permᴰ (schedule.processes k ps) ps)
      → everything_strategy F m schedule cfg j ≡ ok p
      → (p.process j).0 ≡ ok tt
      → get_elem? j.image.thumbs i ≡ some t
      → get_elem? (p.process j).1.image.thumbs i
        ≡ some (record t { local_path = derived (p.process j).1.image.path t.name })
  unfolding everything_strategy
  everything_strategy-made cfg j p perm same done found =
      elim (Result-cases (file_size j.image.path j.host.disk)) [
        | inl (size, e) ↦
            let made = everything-MakesIn cfg j size (λ k. perm k (at_once j.image.thumbs)) found in
            let strategy : ok (multi_process (everything F m schedule cfg j.image size)) ≡ ok p =
              ground (arith, e, same) in
            subst (MakesIn j) strategy made done
        | inr bad ↦ absurd (ground arith)
      ]
