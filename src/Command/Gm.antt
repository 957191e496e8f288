-- ===== src/Command/Gm.antt =====
-- imageprocessor/processorcommand/gm.go: the calls of GraphicsMagick. Each returns the file that
-- the command was told to write.
pub mod Outfiles
use mandible.Base.{String, ◌<>◌, List, [], ◌∷◌, ◌++◌, ◌==◌, string_eq, not, if◌then◌else◌}
use mandible.Base.Int.{ℤ, pos, negsuc, leb_ℤ, quot_ℤ, int_eq}
use mandible.Base.Text.{show_int}
use mandible.Base.Result.{Action, pure, ◌>>=◌, ◌>>◌}
use mandible.Host.{Host, Machine}
use mandible.Command.Runner.{run_processor_command}
use mandible.ThumbType.Formats.{ThumbType, to_string}

abbrev pub gm_command : String
gm_command = "gm"

-- `if quality >= 0 { args = append(args, "-quality", …) }`
abbrev pub quality_args : ℤ → List String
quality_args quality = if leb_ℤ (pos 0) quality then "-quality" ∷ show_int quality ∷ [] else []

-- `%dx%d`
abbrev pub box : ℤ → ℤ → String
box w h = show_int w <> ("x" <> show_int h)

-- `%s_%s`
abbrev pub derived : String → String → String
derived filename name = filename <> ("_" <> name)

-- `%s:%s`
abbrev pub target : ThumbType → String → String
target format outfile = to_string format <> (":" <> outfile)

module _ (m : Machine) where
  run_to : List String → String → Action Host String
  run_to args outfile = do run_processor_command m gm_command args; pure outfile

  unfoldable pub convert_to_jpeg : String → Action Host String
  unfolding run_to
  convert_to_jpeg filename =
      let outfile = filename <> "_jpg" in
      run_to ("convert" ∷ filename ∷ "-flatten" ∷ ("JPEG:" <> outfile) ∷ []) outfile

  unfoldable pub fix_orientation : String → Action Host String
  unfolding run_to
  fix_orientation filename =
      let outfile = filename <> "_ort" in
      run_to ("convert" ∷ filename ∷ "-auto-orient" ∷ outfile ∷ []) outfile

  unfoldable pub quality : String → ℤ → Action Host String
  unfolding run_to
  quality filename q =
      let outfile = filename <> "_q" in
      run_to ("convert" ∷ filename ∷ "-quality" ∷ show_int q ∷ "-density" ∷ "72x72" ∷ outfile ∷ [])
        outfile

  unfoldable pub resize_percent : String → ℤ → Action Host String
  unfolding run_to
  resize_percent filename percent =
      let outfile = filename <> "_rp" in
      run_to ("convert" ∷ filename ∷ "-resize" ∷ (show_int percent <> "%") ∷ outfile ∷ []) outfile

  abbrev pub square_thumb_args : String → String → ℤ → ℤ → ThumbType → List String
  square_thumb_args filename outfile size q format =
      ("convert"
        ∷ (filename <> "[0]")
        ∷ "-resize"
        ∷ (box size size <> "^")
        ∷ "-gravity"
        ∷ "center"
        ∷ "-crop"
        ∷ (box size size <> "+0+0")
        ∷ "-density"
        ∷ "72x72"
        ∷ "-unsharp"
        ∷ "0.5"
        ∷ [])
      ++ (quality_args q ++ (target format outfile ∷ []))

  unfoldable pub square_thumb : String → String → ℤ → ℤ → ThumbType → Action Host String
  unfolding run_to
  square_thumb filename name size q format =
      let outfile = derived filename name in
      run_to (square_thumb_args filename outfile size q format) outfile

  unfoldable pub thumb : String → String → ℤ → ℤ → ℤ → ThumbType → Action Host String
  unfolding run_to
  thumb filename name width height q format =
      let outfile = derived filename name in
      run_to
        (("convert"
            ∷ (filename <> "[0]")
            ∷ "-resize"
            ∷ (box width height <> ">")
            ∷ "-density"
            ∷ "72x72"
            ∷ [])
          ++ (quality_args q ++ (target format outfile ∷ [])))
        outfile

  abbrev circle : ℤ → String
  circle width =
      let r = show_int (quot_ℤ width 2) in "circle " <> (r <> ("," <> (r <> (" " <> (r <> ",1")))))

  -- The square thumbnail is drawn first, at the path that the circle then overwrites.
  unfoldable pub circle_thumb : String → String → ℤ → ℤ → ThumbType → Action Host String
  unfolding run_to square_thumb
  circle_thumb filename name width q format = do
    let outfile = derived filename name
    square ← square_thumb filename name width q format
    run_to
        (("convert"
            ∷ "-size"
            ∷ box width width
            ∷ "xc:none"
            ∷ "-fill"
            ∷ square
            ∷ "-quality"
            ∷ "83"
            ∷ "-density"
            ∷ "72x72"
            ∷ "-draw"
            ∷ circle width
            ∷ [])
          ++ (quality_args q ++ (("PNG:" <> outfile) ∷ [])))
        outfile

  -- The only size that is tested here is the quality, and against -1 alone.
  unfoldable pub custom_thumb :
      String → String → ℤ → ℤ → String → ℤ → ℤ → ℤ → ThumbType → Action Host String
  unfolding run_to
  custom_thumb filename name width height crop_gravity crop_width crop_height q format =
      let outfile = derived filename name in
      run_to
        (("convert"
            ∷ (filename <> "[0]")
            ∷ "-resize"
            ∷ (box width height <> "^")
            ∷ "-density"
            ∷ "72x72"
            ∷ [])
          ++ ((if not (q == negsuc 0) then "-quality" ∷ show_int q ∷ [] else [])
              ++ ((if not (crop_gravity == "")
                    then "-gravity"
                      ∷ crop_gravity
                      ∷ "-crop"
                      ∷ (box crop_width crop_height <> "+0+0")
                      ∷ []
                    else [])
                  ++ (target format outfile ∷ []))))
        outfile

  unfoldable pub full : String → String → ℤ → ThumbType → Action Host String
  unfolding run_to
  full filename name q format =
      let outfile = derived filename name in
      run_to
        (("convert" ∷ (filename <> "[0]") ∷ "-density" ∷ "72x72" ∷ [])
          ++ (quality_args q ++ (target format outfile ∷ [])))
        outfile
