-- ===== src/Server/Ocr.antt =====
-- server/server.go: `ocrHandler`.
use mandible.Base.{ℕ, String, ◌<>◌, [], none, some, ◌==◌, string_eq, if◌then◌else◌}
use mandible.Base.Result.{ok, err, panic}
use mandible.Host.{Machine, remove}
use mandible.Upload.Types.{UploadedFile}
use mandible.Upload.File.{new_uploaded_file, set_hash, clean}
use mandible.Process.Ocr.{duel_ocr_strategy}
use mandible.Process.Strategy.{Schedule}
use mandible.Store.Types.{new_store_object}
use mandible.Server.Types.{
  Outside, Server, Session, Payload, error_response, host_of, set_host, on_host, save_to_tmp,
}
use mandible.Server.Http.{Request}
use mandible.Server.Response.{Writer}
use mandible.Server.Upload.{Outcome, respond}

module _ {C : Type 0} (m : Machine) (schedule : Schedule) (out : Outside C)
    (server : Server C) where
  abbrev refuse : ℕ → String → Writer → Session C → Outcome × Session C
  refuse status message = respond m out server (error_response status message)

  -- The handler once there is an upload; the deferred `Clean` comes last.
  unfoldable pub recognize_upload : UploadedFile → Writer → Session C → Outcome × Session C
  recognize_upload u w s =
      let (r, j) =
        (duel_ocr_strategy m schedule.ocr).process (record { image = u; host = host_of s }) in
      let s' = set_host j.host s in
      let (outcome, s'') = elim r as (λ _. Outcome × Session C) [
        | ok _ ↦
            respond m out server
              (record {
                error = "";
                payload = Payload.ocr (record { hash = j.image.hash; ocr_text = j.image.ocr_text });
                status = 200;
              })
              w s'
        | err _ ↦ refuse 500 "Unable to execute OCR strategy" w s'
        | panic ↦ (Outcome.panicked, s')
      ] in
      (outcome, set_host (clean j.image (host_of s'')) s'')

  -- The handler once the original is in a file, which a deferred call removes.
  unfoldable pub ocr_of : String → String → Writer → Session C → Outcome × Session C
  ocr_of image_id store_file w s =
      let (r, s') = on_host (new_uploaded_file m "" store_file []) s in
      let (outcome, s'') = elim r as (λ _. Outcome × Session C) [
        | ok u ↦ recognize_upload (set_hash image_id u) w s'
        | _ ↦ refuse 500 ("Unable to generate UploadedFile object: " <> image_id) w s'
      ] in
      (outcome, set_host (remove store_file (host_of s'')) s'')

  unfoldable pub ocr_handler : Request → Writer → Session C → Outcome × Session C
  ocr_handler r w s =
      let image_id = r.form_value "uid" in
      if image_id == ""
      then refuse 400 "Image ID must be passed as \"uid\"" w s
      else elim (server.image_store.get (new_store_object image_id "" "original") s.world) [
        | ok (some reader) ↦
            let (tmp, s') = on_host (save_to_tmp out reader) s in
            elim tmp [
              | ok store_file ↦ ocr_of image_id store_file w s'
              | err _ ↦ refuse 400 ("Error saving original image to tmpfile: " <> image_id) w s'
              | panic ↦ (Outcome.panicked, s')
            ]
        | ok none ↦ (Outcome.panicked, s)
        | err _ ↦ refuse 400 ("Error retrieving image with ID: " <> image_id) w s
        | panic ↦ (Outcome.panicked, s)
      ]
