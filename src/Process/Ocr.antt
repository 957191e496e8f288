-- ===== src/Process/Ocr.antt =====
-- imageprocessor/ocr.go
use mandible.Base.{[], ◌∷◌, none, some}
use mandible.Base.Result.{ok, err, panic}
use mandible.Host.{Host, Machine}
use mandible.Command.Ocr.{OcrCommand, meme_ocr, standard_ocr, multi_ocr}
use mandible.Upload.File.{set_ocr_text}
use mandible.Process.Types.{ProcessType, Order}

abbrev pub ocr_runner : OcrCommand → ProcessType
ocr_runner command = record {
  process = λ j.
      let (r, h) = command.run j.image.path j.host in
      elim r [
        | ok (some result) ↦ (ok tt, record { image = set_ocr_text result.text j.image; host = h })
        | ok none ↦ (panic, record j { host = h })
        | err e ↦ (err e, record j { host = h })
        | panic ↦ (panic, record j { host = h })
      ];
  string = "OCR runner";
}

module _ (m : Machine) where
  abbrev pub duel_ocr_strategy : Order Host OcrCommand → ProcessType
  duel_ocr_strategy order = ocr_runner (multi_ocr m order (meme_ocr m ∷ standard_ocr m ∷ []))

  abbrev pub standard_ocr_strategy : ProcessType
  standard_ocr_strategy = ocr_runner (standard_ocr m)

  abbrev pub meme_ocr_strategy : ProcessType
  meme_ocr_strategy = ocr_runner (meme_ocr m)
