-- ===== src/Tests/Processes.antt =====
-- The theorems on processes, at small commands and pictures.
use mathlib.Core.List.Permᴰ
use mandible.Host.{Machine, read_file}
use mandible.Command.Gm.{fix_orientation}
use mandible.Command.Tools.{jpegtran, strip_metadata}
use mandible.Command.Ocr.{meme_ocr_run, standard_ocr_run}
use mandible.Process.Simple.{compress, strip}
use mandible.Tests.Data.{jpeg_bytes}
use mandible.Base.{
  String, ◌≡◌, refl, ◌≢◌, ◌⊎◌, ◌≤◌, ◌+◌, true, List, [], ◌∷◌, none, some, All, get_elem?,
}
use mandible.Base.Int.{pos, ltb_ℤ, ◌≤ℤ◌}
use mandible.Base.Dict.{lookup, insert, erase}
use mandible.Base.Result.{ok}
use mandible.Base.Text.{text_length}
use mandible.Command.Words.{three_digits}
use mandible.Command.Runner.{run_processor_command}
use mandible.Command.Gm.{square_thumb, quality}
use mandible.Command.Ocr.{OcrResult, OcrCommand, remove_non_words, word_count, best_of}
use mandible.Command.Ocr.Best.{score, IsIn, results, multi_ocr-Picked}
use mandible.Upload.File.{file_size}
use mandible.Upload.Thumb.{process, process_square, set_path, get_output_format}
use mandible.Process.Types.{ProcessType, run_all, multi_process}
use mandible.Process.Simple.{process_thumb_at, replace_by}
use mandible.Process.Scaler.{scale, scale_jpeg, size_or_zero}
use mandible.Process.Scaler.Rounds.{started, scale-started, scale-fits}
use mandible.Process.Strategy.{thumb_processes, everything, everything_strategy}
use mandible.Process.Strategy.Gif.{everything_strategy-gif}
use mandible.Command.Gm.{derived}
use mandible.Process.Strategy.Everything.{everything_strategy-made}
use mandible.Tests.Data.{machine, floats, job, gif_job, square, schedule, configuration}

scale-started_example : started (scale machine (pos 2) job).1 ≤ started job + 13
scale-started_example = scale-started machine (pos 2) job

-- The commands of the machine leave no file with the better quality, which counts as size 0.
scale-fits_example : ltb_ℤ (size_or_zero (scale machine (pos 2) job).1) (pos 2) ≡ true
unfolding scale scale_jpeg replace_by quality run_processor_command file_size lookup insert erase
scale-fits_example = scale-fits machine (pos 2) job refl

everything_strategy-gif_example :
    ((multi_process
        (everything floats machine schedule configuration gif_job.image (pos 4))).process
      gif_job).0
    ≢ ok tt
unfolding everything_strategy file_size lookup
everything_strategy-gif_example =
    everything_strategy-gif machine floats schedule configuration gif_job (pos 4)
      (multi_process (everything floats machine schedule configuration gif_job.image (pos 4))) refl
      refl refl refl

-- A command that reads this text.
abbrev reads : String → OcrCommand
reads text = record { run = λ _ h. (ok (some (record { kind = "OCR"; text = text })), h) }

abbrev readers : List OcrCommand
readers = reads "you" ∷ reads "hello you hello" ∷ []

abbrev best : OcrResult
best = remove_non_words machine (record { kind = "OCR"; text = "hello you hello" })

multi_ocr-Picked_example :
    All (λ r. score (some r) ≤ℤ score (some best)) (results machine "/tmp/u" readers job.host)
    × ((some best ≡ none)
        ⊎ ((r : OcrResult) × (some best ≡ some r)
            × IsIn r (results machine "/tmp/u" readers job.host)))
unfolding best_of remove_non_words word_count three_digits text_length
multi_ocr-Picked_example =
    multi_ocr-Picked machine "/tmp/u" (λ _ cs. cs) readers job.host (some best) refl

-- A machine on which every command leaves all files that are looked for.
abbrev busy : Machine
busy = record machine {
  exec = λ command args disk. record {
    seconds = 1;
    wait_error = none;
    disk =
        insert "/tmp/u_ort_opti_small" jpeg_bytes
          (insert "/tmp/u_ort_opti_meme.txt" [] (insert "/tmp/u_ort_opti_standard.txt" [] disk));
  };
}

abbrev everything_done : ProcessType
everything_done = multi_process (everything floats busy schedule configuration job.image (pos 3))

everything-ok : (everything_done.process job).0 ≡ ok tt
unfolding everything run_all replace_by fix_orientation compress jpegtran strip strip_metadata
    run_processor_command thumb_processes process_thumb_at process process_square square_thumb
    set_path get_output_format lookup insert erase best_of meme_ocr_run standard_ocr_run read_file
    remove_non_words word_count three_digits text_length
everything-ok = refl

everything_strategy-made_example :
    get_elem? (everything_done.process job).1.image.thumbs 0
    ≡ some
        (record square { local_path = derived (everything_done.process job).1.image.path "small" })
unfolding everything_strategy file_size lookup
everything_strategy-made_example =
    everything_strategy-made floats busy schedule 0 square configuration job everything_done
      (λ _ ps. Permᴰ.refl ps) refl everything-ok refl
