-- ===== src/Tests/Uploads.antt =====
-- The theorems on formats, uploads and thumbnails, at a picture of a cat.
use mandible.Base.{◌≡◌, refl, ◌≢◌, true, [], ◌∷◌, some, arith}
use mandible.Base.Dict.{lookup, insert}
use mandible.Base.Result.{Result}
use mandible.Host.{Host, Bytes, read_file}
use mandible.Command.Runner.{run_processor_command}
use mandible.Command.Gm.{square_thumb}
use mandible.Upload.Types.{ThumbFile}
use mandible.Upload.File.{sniffed, is_supported, new_uploaded_file}
use mandible.Upload.File.Contents.{new_uploaded_file-ok}
use mandible.Upload.Thumb.{process, process_square, set_path, get_output_format}
use mandible.Upload.Thumb.Results.{IsMade, process-IsMade}
use mandible.Upload.Thumb.Sizes.{AreAllowed, process-AreAllowed}
use mandible.Tests.Data.{machine, floats, host, upload, square}

new_uploaded_file-ok_example :
    (bytes : Bytes) × (lookup "/tmp/u" host.disk ≡ some bytes)
    × (bytes ≢ [])
    × (is_supported (machine.detect_content_type (sniffed bytes)) ≡ true)
    × (upload ≡ record {
      filename = "cat.jpg";
      path = "/tmp/u";
      mime = machine.detect_content_type (sniffed bytes);
      hash = "";
      ocr_text = "";
      thumbs = square ∷ [];
    })
    × (host ≡ host)
unfolding new_uploaded_file read_file lookup
new_uploaded_file-ok_example =
    new_uploaded_file-ok machine "cat.jpg" "/tmp/u" (square ∷ []) host host upload refl

abbrev made : Result ThumbFile × Host
made = process floats machine square upload host

process-IsMade_example : IsMade upload square (record square { local_path = "/tmp/u_small" }) made.1
unfolding process process_square square_thumb run_processor_command set_path get_output_format
    lookup insert
process-IsMade_example =
    process-IsMade floats machine square upload host made.1
      (record square { local_path = "/tmp/u_small" }) refl

process-AreAllowed_example : AreAllowed square
unfolding process process_square square_thumb run_processor_command set_path get_output_format
    lookup insert
process-AreAllowed_example = process-AreAllowed floats machine square upload host (ground arith)
