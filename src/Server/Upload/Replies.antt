-- ===== src/Server/Upload/Replies.antt =====
-- What a client of the upload endpoints of server/server.go is answered, and why.
use mathlib.Core.Path.{subst}
use mandible.Base.{
  String, ◌≡◌, ◌≢◌, refl, ◌∙◌, ◌⊎◌, inl, inr, Bool, true, false, ◌&&◌, List, [], ◌∷◌, Option, some,
  arith, ◌==◌, nat_eq,
}
use mandible.Base.Dict.{Dict}
use mandible.Base.Result.{Result, ok, err, panic, is_ok, succeeds, Result-cases}
use mandible.Host.{Host, Machine}
use mandible.Upload.Types.{UploadedFile, ThumbFile}
use mandible.Upload.File.{Job, new_uploaded_file, file_size, dimensions}
use mandible.Store.Types.{Reader, StoreObject}
use mandible.Server.Types.{
  Outside, Server, Session, ServerResponse, Payload, error_response, host_of, set_host, on_host,
  save_to_tmp,
}
use mandible.Server.Auth.{AuthenticatedUser}
use mandible.Server.Http.{Request, fresh_writer}
use mandible.Server.Extract.{FileExtractor, parse_thumbs}
use mandible.Server.Response.{json_of}
use mandible.Server.Response.Headers.{write_response_fresh}
use mandible.Server.Upload.{
  Outcome, describe, store_upload, process_upload, upload_file, respond, upload_handler,
}
use mandible.Server.Upload.Success.{named, saved_image, built}

-- 200 with a description and no error if all was done, and otherwise 500 without a description.
abbrev pub IsVerdict : Bool → ServerResponse → Type 0
IsVerdict done r =
    ((done ≡ true) × (r.status ≡ 200) × (r.error ≡ "") × (r.payload ≢ Payload.empty))
    ⊎ ((done ≡ false) × (r.status ≡ 500) × (r.payload ≡ Payload.empty))

-- The same of a call; only where not all was done does it panic.
abbrev pub Judges : Bool → Result ServerResponse → Type 0
Judges done (ok r) = IsVerdict done r
Judges done (err _) = ⊥
Judges done panic = done ≡ false

module _ {C : Type 0} (m : Machine) (out : Outside C) (server : Server C) where
  -- The size of the file and the sides of the image can be read.
  abbrev pub describes : UploadedFile → Host → Bool
  describes u h = is_ok (file_size u.path h.disk) && is_ok (dimensions m u h.disk)

  -- The image and every thumbnail can be saved, and the image can be described.
  abbrev pub stores : UploadedFile → Session C → Bool
  stores image s =
      let u = named m out server image s in
      succeeds (saved_image m out server u s).0 (λ _.
        succeeds (built m out server u s).0 (λ _. describes u (host_of (built m out server u s).1)))

  -- There is a processor, it succeeds, and what it leaves can be stored.
  abbrev pub processes : UploadedFile → Session C → Bool
  processes upload s =
      let j : Job = record { image = upload; host = host_of s } in
      succeeds (server.processor_strategy server.config j) (λ p.
        succeeds (p.process j).0
          (λ _. stores (p.process j).1.image (set_host (p.process j).1.host s)))

  -- The file can be saved to the disk, is an image, and can be processed.
  abbrev pub uploads : Reader → String → List ThumbFile → Session C → Bool
  uploads reader file_name thumbs s =
      let saved = on_host (save_to_tmp out reader) s in
      succeeds saved.0 (λ tmp.
        let made = on_host (new_uploaded_file m file_name tmp thumbs) saved.1 in
        succeeds made.0 (λ upload. processes upload made.1))

  describe-IsVerdict :
      (file_name : String) (user : Option AuthenticatedUser) (u : UploadedFile) (obj : StoreObject)
      (thumbs : Dict String) (h : Host)
      → IsVerdict (describes u h) (describe m out server file_name user u obj thumbs h)
  unfolding describe
  describe-IsVerdict file_name user u obj thumbs h = elim (Result-cases (file_size u.path h.disk)) [
    | inl (size, e) ↦ elim (Result-cases (dimensions m u h.disk)) [
      | inl (sides, f) ↦ ground arith
      | inr f ↦ ground arith
    ]
    | inr e ↦ ground arith
  ]

  store_upload-Judges :
      (file_name : String) (user : Option AuthenticatedUser) (image : UploadedFile) (s : Session C)
      → Judges (stores image s) (store_upload m out server file_name user image s).0
  unfolding store_upload
  store_upload-Judges file_name user image s =
      let u = named m out server image s in
      let after = built m out server u s in
      elim (Result-cases (saved_image m out server u s).0) [
        | inl (_, e) ↦ elim (Result-cases after.0) [
          | inl (thumbs, f) ↦ ground (
            arith,
            describe-IsVerdict file_name user u (saved_image m out server u s).1 thumbs
                (host_of after.1),
          )
          | inr f ↦ ground arith
        ]
        | inr e ↦ ground arith
      ]

  process_upload-Judges :
      (file_name : String) (user : Option AuthenticatedUser) (upload : UploadedFile) (s : Session C)
      → Judges (processes upload s) (process_upload m out server file_name user upload s).0
  unfolding process_upload
  process_upload-Judges file_name user upload s =
      let j : Job = record { image = upload; host = host_of s } in
      elim (Result-cases (server.processor_strategy server.config j)) [
        | inl (p, e) ↦ elim (Result-cases (p.process j).0) [
          | inl (_, f) ↦ ground (
            arith,
            store_upload-Judges file_name user (p.process j).1.image
                (set_host (p.process j).1.host s),
          )
          | inr f ↦ ground arith
        ]
        | inr e ↦ ground arith
      ]

  upload_file-Judges :
      (reader : Reader) (file_name : String) (thumbs : List ThumbFile)
      (user : Option AuthenticatedUser) (s : Session C)
      → Judges
          (uploads reader file_name thumbs s)
          (upload_file m out server reader file_name thumbs user s).0
  unfolding upload_file
  upload_file-Judges reader file_name thumbs user s =
      let saved = on_host (save_to_tmp out reader) s in
      elim (Result-cases saved.0) [
        | inl (tmp, e) ↦
            let made = on_host (new_uploaded_file m file_name tmp thumbs) saved.1 in
            elim (Result-cases made.0) [
              | inl (u, f) ↦ ground (arith, process_upload-Judges file_name user u made.1)
              | inr f ↦ ground arith
            ]
        | inr e ↦ ground arith
      ]

  module _ (extractor : FileExtractor C) (r : Request) (s : Session C) where
    -- The image cannot be taken from the request, or it can and the thumbnails cannot be read.
    abbrev pub IsRefusal : ServerResponse → Type 0
    IsRefusal resp =
        (resp.status ≡ 400)
        × (resp.payload ≡ Payload.empty)
        × (((extractor r s).0 ≡ err resp.error)
            ⊎ ((is_ok (extractor r s).0 ≡ true) × (is_ok (parse_thumbs out r) ≡ false)))

    -- There is an image, and the thumbnails can be read.
    abbrev pub IsTreated : ServerResponse → Type 0
    IsTreated resp =
        (reader : Reader) × (name : String) × (thumbs : List ThumbFile) × ((extractor r s).0
          ≡ ok (reader, name))
        × (parse_thumbs out r ≡ ok thumbs)
        × IsVerdict (uploads reader name thumbs (extractor r s).1) resp

    -- From the request to the description, everything can be done.
    abbrev pub handles : Bool
    handles = succeeds (extractor r s).0 (λ (reader, name).
        succeeds (parse_thumbs out r) (λ thumbs. uploads reader name thumbs (extractor r s).1))

    -- One response was written, status and body, or the connection is closed.
    abbrev pub IsReply : Outcome → Type 0
    IsReply (Outcome.replied w) =
        (resp : ServerResponse) × (w.sent ≡ some (resp.status, []))
        × (w.body ≡ json_of resp (resp.status == 200) ∷ [])
        × (IsRefusal resp ⊎ IsTreated resp)
    IsReply Outcome.panicked = handles ≡ false

    respond-IsReply :
        (resp : ServerResponse) (t : Session C)
        → IsRefusal resp ⊎ IsTreated resp
        → IsReply (respond m out server resp fresh_writer t).0
    respond-IsReply resp t h =
        let (sent, body, _, _) = write_response_fresh resp t in (resp, sent, body, h)

    unread-IsReply :
        is_ok (extractor r s).0 ≡ true
        → is_ok (parse_thumbs out r) ≡ false
        → (t : Session C)
        → IsReply
            (respond m out server (error_response 400 "Error parsing thumbnails!") fresh_writer t).0
    unread-IsReply e f t = respond-IsReply _ t (inl (refl, refl, inr (e, f)))

    handles-uploads :
        {reader : Reader} {name : String} {thumbs : List ThumbFile}
        → (extractor r s).0 ≡ ok (reader, name)
        → parse_thumbs out r ≡ ok thumbs
        → handles ≡ uploads reader name thumbs (extractor r s).1
    handles-uploads e f = rw (e, f) refl

    -- An upload endpoint that does not panic writes one response. It is 400 with the extractor's
    -- message if the image cannot be taken from the request, 400 if it can and the thumbnails cannot be
    -- read. With both at hand it is 200 with a description of the image if every later step can be
    -- done: the file is saved to the disk and is an image, there is a processor and it succeeds, the
    -- image and each thumbnail are stored, its size and sides can be read; it is 500 if one of them
    -- fails. `success` in the body is true exactly for 200, and only 200 comes with a description. The
    -- handler panics only where one of all these steps does not succeed.
    pub upload_handler-IsReply :
        (user : Option AuthenticatedUser)
        → IsReply (upload_handler m out server extractor user r fresh_writer s).0
    unfolding upload_handler
    upload_handler-IsReply user = elim (Result-cases (extractor r s).0) [
      | inl ((reader, name), e) ↦ elim (Result-cases (parse_thumbs out r)) [
        | inl (thumbs, f) ↦
            let uploaded = upload_file m out server reader name thumbs user (extractor r s).1 in
            let judged = upload_file-Judges reader name thumbs user (extractor r s).1 in
            let done = uploads reader name thumbs (extractor r s).1 in
            elim (Result-cases uploaded.0) [
              | inl (answer, g) ↦
                  rw (e, f, g, upload_handler)
                    (respond-IsReply answer uploaded.1
                      (inr (reader, name, thumbs, e, f, subst (Judges done) g judged)))
              | inr (inl (x, g)) ↦ absurd (subst (Judges done) g judged)
              | inr (inr g) ↦
                  let failed : done ≡ false = subst (Judges done) g judged in
                  rw (e, f, g, upload_handler) (handles-uploads e f ∙ failed)
            ]
        | inr (inl (x, f)) ↦
            rw (e, f, upload_handler) (unread-IsReply (rw e refl) (rw f refl) (extractor r s).1)
        | inr (inr f) ↦
            rw (e, f, upload_handler) (unread-IsReply (rw e refl) (rw f refl) (extractor r s).1)
      ]
      | inr (inl (message, e)) ↦
          rw (e, upload_handler)
            (respond-IsReply (error_response 400 message) (extractor r s).1
              (inl (refl, refl, inl e)))
      | inr (inr e) ↦ rw (e, upload_handler) (rw e refl)
    ]
