-- ===== src/Command/Tools.antt =====
-- imageprocessor/processorcommand/jpegtran.go, optipng.go and stripmetadata.go
use mandible.Base.{String, ◌<>◌, [], ◌∷◌}
use mandible.Base.Result.{Action, ⊤, pure, ◌>>◌}
use mandible.Host.{Host, Machine}
use mandible.Command.Runner.{run_processor_command}

module _ (m : Machine) where
  unfoldable pub jpegtran : String → Action Host String
  jpegtran filename = do
    let outfile = filename <> "_opti"
    run_processor_command m "jpegtran"
        ("-copy" ∷ "all" ∷ "-optimize" ∷ "-outfile" ∷ outfile ∷ filename ∷ [])
    pure outfile

  unfoldable pub optipng : String → Action Host String
  optipng filename = do
    let outfile = filename <> "_opi"
    run_processor_command m "optipng" ("-fix" ∷ "-out" ∷ outfile ∷ filename ∷ [])
    pure outfile

  -- The file is changed in place.
  unfoldable pub strip_metadata : String → Action Host ⊤
  strip_metadata filename =
      run_processor_command m "exiftool"
        ("-all=" ∷ "--icc_profile:all" ∷ "-overwrite_original" ∷ filename ∷ [])
