-- ===== src/Process/Simple.antt =====
-- imageprocessor/imageorienter.go, compresslosslessly.go and exifstripper.go, and a thumbnail of an
-- upload as a process.
use mandible.Base.{ℕ, String, ◌<>◌, not, set, get_elem?, none, some, if◌then◌else◌}
use mandible.Base.Result.{ok, err, panic, Action, ⊤, ◌>>=◌}
use mandible.Host.{Host, Machine}
use mandible.Command.Gm.{fix_orientation}
use mandible.Command.Tools.{jpegtran, optipng, strip_metadata}
use mandible.Upload.Types.{ThumbFile}
use mandible.Upload.File.{Job, set_path, set_thumbs, is_jpeg, is_png, is_gif}
use mandible.Upload.Thumb.{Floats, process}
use mandible.Process.Types.{ProcessType}

-- A call that reads the path of the image and changes the host only.
abbrev pub on_path : {A : Type 0} → (String → Action Host A) → Action Job A
on_path f j = let (r, h) = f j.image.path j.host in (r, record j { host = h })

-- `filename, err := command(image.GetPath()); if err != nil { return err }; image.SetPath(filename)`
unfoldable pub replace_by : (String → Action Host String) → Action Job ⊤
unfolding set_path
replace_by command = do filename ← on_path command; λ j. (ok tt, set_path filename j)

module _ (m : Machine) where
  abbrev pub image_orienter : ProcessType
  image_orienter = record { process = replace_by (fix_orientation m); string = "Image orienter" }

  unfoldable pub compress : Action Job ⊤
  unfolding replace_by
  compress j =
      if is_jpeg j.image
      then replace_by (jpegtran m) j
      else if is_png j.image
      then replace_by (optipng m) j
      else if is_gif j.image
      then (ok tt, j)
      else (err "Unsuported filetype", j)

  abbrev pub compress_losslessly : ProcessType
  compress_losslessly = record { process = compress; string = "Lossy compressor" }

  unfoldable pub strip : Action Job ⊤
  strip j = if not (is_jpeg j.image) then (ok tt, j) else on_path (strip_metadata m) j

  abbrev pub exif_stripper : ProcessType
  exif_stripper = record { process = strip; string = "EXIF stripper" }

module _ (F : Floats) (m : Machine) where
  -- The method `Process` of the thumbnail with this index in the upload.
  unfoldable pub process_thumb_at : ℕ → Action Job ⊤
  process_thumb_at i j = elim (get_elem? j.image.thumbs i) [
    | none ↦ (panic, j)
    | some t ↦
        let (r, h) = process F m t j.image j.host in
        elim r [
          | ok t' ↦
              (ok tt, record { image = set_thumbs (set j.image.thumbs i t') j.image; host = h })
          | err e ↦ (err e, record j { host = h })
          | panic ↦ (panic, record j { host = h })
        ]
  ]

  abbrev pub thumb_process : ℕ → ThumbFile → ProcessType
  thumb_process i t = record {
    process = process_thumb_at i;
    string = "Thumbnail of <" <> (t.name <> ">");
  }
