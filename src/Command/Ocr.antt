-- ===== src/Command/Ocr.antt =====
-- imageprocessor/processorcommand/ocrcommands.go
pub mod Best
pub mod Parallel
use mandible.Base.{
  ℕ, suc, String, ◌<>◌, Bool, true, List, [], ◌∷◌, Option, none, some, ltb, ◌==◌, nat_eq,
}
use mandible.Base.{if◌then◌else◌}
use mandible.Base.Int.{ℤ, pos, negsuc, ltb_ℤ}
use mandible.Base.Text.{text_length, trim_space}
use mandible.Base.Result.{ok, err, panic, Action, ⊤, ◌>>◌}
use mandible.Host.{Host, Machine, read_file, remove}
use mandible.Command.Runner.{run_processor_command}
use mandible.Command.Words.{words, is_number, is_single_char_word}

pub record OcrResult : Type 0 where
  pub kind : String
  pub text : String

-- The interface `OCRCommand`; the pointer that `Run` returns may be nil.
pub record OcrCommand : Type 0 where
  pub run : String → Action Host (Option OcrResult)

-- The body of the loop of `removeNonWords`: whether a word stays.
unfoldable pub keeps : (String → Bool) → String → Bool
keeps check word =
    if is_number word
    then true
    else if text_length word == 1
    then is_single_char_word word
    else check word

unfoldable pub kept_words : (String → Bool) → List String → String → String
unfolding keeps
kept_words check [] str = str
kept_words check (w ∷ ws) str =
    kept_words check ws (if keeps check w then str <> (" " <> w) else str)

-- The text is left alone if there is no speller.
unfoldable pub remove_non_words : Machine → OcrResult → OcrResult
unfolding kept_words words trim_space
remove_non_words m r = elim m.speller [
  | err _ ↦ r
  | panic ↦ r
  | ok check ↦ record r { text = trim_space (kept_words check (words r.text) "") }
]

unfoldable pub count_long : List String → ℕ
count_long [] = 0
count_long (w ∷ ws) = let n = count_long ws in if ltb 1 (text_length w) then suc n else n

-- Words of one character do not count.
unfoldable pub word_count : String → ℕ
unfolding count_long words
word_count blob = count_long (words blob)

module _ (m : Machine) where
  -- The rest of `Run`, once the picture has been made ready: its deferred removals come last.
  recognize : String → String → String → String → Action Host (Option OcrResult)
  recognize name language image_tif out_text h =
      let (r, h₁) =
        run_processor_command m "tesseract" ("-l" ∷ language ∷ image_tif ∷ out_text ∷ []) h in
      elim r [
        | err e ↦
            (err (name <> (" tesseract command failed with error = " <> e)), remove image_tif h₁)
        | panic ↦ (panic, remove image_tif h₁)
        | ok _ ↦
            let (text, h₂) = read_file (out_text <> ".txt") h₁ in
            let h₃ = remove image_tif (remove (out_text <> ".txt") h₂) in
            elim text [
              | err e ↦ (err e, h₃)
              | panic ↦ (panic, h₃)
              | ok bytes ↦ (
                ok (
                    some (record {
                      kind = name <> "OCR";
                      text = m.to_lower (trim_space (m.text_of bytes));
                    })),
                h₃,
              )
            ]
      ]

  preprocess : String → List String → Action Host ⊤
  preprocess name args h =
      let (r, h₁) = run_processor_command m "gm" args h in
      (
        elim r [
          | ok _ ↦ ok tt
          | err e ↦ err (name <> (" preprocessing command failed with error = " <> e))
          | panic ↦ panic
        ],
        h₁,
      )

  unfoldable pub meme_ocr_run : String → Action Host (Option OcrResult)
  unfolding recognize preprocess
  meme_ocr_run image = do
    let image_tif = image <> "_meme.jpg"
    preprocess "Meme" (
        "convert"
        ∷ (image <> "[0]")
        ∷ "-resize"
        ∷ "400%"
        ∷ "-fill"
        ∷ "black"
        ∷ "-fuzz"
        ∷ "10%"
        ∷ "+matte"
        ∷ "-matte"
        ∷ "-transparent"
        ∷ "white"
        ∷ image_tif
        ∷ [])
    recognize "Meme" "meme" image_tif (image <> "_meme")

  unfoldable pub standard_ocr_run : String → Action Host (Option OcrResult)
  unfolding recognize preprocess
  standard_ocr_run image = do
    let image_tif = image <> "_standard.jpg"
    preprocess "Standard"
        ("convert" ∷ (image <> "[0]") ∷ "-resize" ∷ "400%" ∷ "-type" ∷ "Grayscale" ∷ image_tif ∷ [])
    recognize "Standard" "eng" image_tif (image <> "_standard")

  abbrev pub meme_ocr : OcrCommand
  meme_ocr = record { run = meme_ocr_run }

  abbrev pub standard_ocr : OcrCommand
  standard_ocr = record { run = standard_ocr_run }

  -- The loop of `MultiOCRCommand.Run` over the commands in the order in which they end. `max` is
  -- -1 at first; a result is the best so far if it has more words.
  unfoldable pub best_of :
      List OcrCommand → String → ℤ → Option OcrResult → Action Host (Option OcrResult)
  best_of [] image max best h = (ok best, h)
  best_of (c ∷ cs) image max best h =
      let (r, h₁) = c.run image h in
      elim r [
        | err e ↦ (err e, h₁)
        | panic ↦ (panic, h₁)
        | ok none ↦ (panic, h₁)
        | ok (some k) ↦
            let result = remove_non_words m k in
            let count = pos (word_count result.text) in
            let better = ltb_ℤ max count in
            best_of cs image (if better then count else max) (if better then some result else best)
              h₁
      ]

  -- `order` is the order in which the goroutines end.
  abbrev pub multi_ocr : (Host → List OcrCommand → List OcrCommand) → List OcrCommand → OcrCommand
  multi_ocr order commands = record {
    run = λ image h. best_of (order h commands) image (negsuc 0) none h;
  }
