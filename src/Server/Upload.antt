-- ===== src/Server/Upload.antt =====
-- server/server.go: `uploadFile`, `buildThumbResponse` and the handler of the upload endpoints.
pub mod Endings
pub mod Replies
pub mod Stored
pub mod Success
pub mod Thumbs
use mandible.Base.{String, ◌<>◌, List, [], ◌∷◌, Option, none, some}
use mandible.Base.Dict.{Dict, insert}
use mandible.Base.Result.{ok, err, panic, Action, of_result, modify, ◌>>=◌, ◌>>◌, ⊤}
use mandible.Host.{Host, Machine}
use mandible.Upload.Types.{UploadedFile, ThumbFile}
use mandible.Upload.File.{Job, new_uploaded_file, set_hash, file_size, dimensions, clean}
use mandible.Process.Types.{ProcessType}
use mandible.Store.Types.{Reader, World, StoreObject, ImageStore, new_store_object, store_object}
use mandible.Server.Types.{
  Outside, Server, Session, ServerResponse, ImageResponse, Payload, error_response, host_of,
  set_host, note, on_host, save_to_tmp,
}
use mandible.Server.Auth.{AuthenticatedUser}
use mandible.Server.Http.{Request}
use mandible.Server.Stats.{Event}
use mandible.Server.Extract.{FileExtractor, parse_thumbs}
use mandible.Server.Response.{Writer, write_response}

-- What a handler leaves: what it wrote, or a panic, which net/http ends by closing the connection.
pub data Outcome : Type 0 where
  replied : Writer → Outcome
  panicked : Outcome

module _ {C : Type 0} (m : Machine) (out : Outside C) (server : Server C) where
  -- The object under which a thumbnail is stored.
  abbrev pub thumb_object : UploadedFile → ThumbFile → StoreObject
  thumb_object u t = new_store_object (u.hash <> ("/" <> t.name)) u.mime "thumbnail"

  unfoldable pub build_thumb_response :
      UploadedFile → List ThumbFile → Dict String → Action (Session C) (Dict String)
  build_thumb_response u [] resp s = (ok resp, s)
  build_thumb_response u (t ∷ thumbs) resp s =
      let (r, obj, w) = store_object server.image_store t.local_path (thumb_object u t) s.world in
      elim r [
        | err e ↦ (err e, record s { world = w })
        | panic ↦ (panic, record s { world = w })
        | ok _ ↦
            build_thumb_response u thumbs (insert t.name obj.url resp)
              (note (Event.thumbnail t.name) (record s { world = w }))
      ]

  -- The response once the picture and its thumbnails are stored; neither `file_size` nor `dimensions`
  -- panics.
  unfoldable pub describe :
      String
      → Option AuthenticatedUser
      → UploadedFile
      → StoreObject
      → Dict String
      → Host
      → ServerResponse
  describe file_name user u obj thumbs h = elim (file_size u.path h.disk) [
    | ok size ↦ elim (dimensions m u h.disk) [
      | ok (width, height) ↦ record {
        error = "";
        payload = Payload.image (record {
          link = obj.url;
          mime = obj.mime_type;
          hash = u.hash;
          name = file_name;
          size = size;
          width = width;
          height = height;
          ocr_text = u.ocr_text;
          thumbs = thumbs;
          user_id = elim user [ none ↦ "" | some a ↦ a.user_id ];
        });
        status = 200;
      }
      | err e ↦ error_response 500 ("Error fetching upload dimensions: " <> e)
      | panic ↦ error_response 500 "Error fetching upload dimensions: "
    ]
    | _ ↦ error_response 500 "Unable to fetch image metadata!"
  ]

  -- The part of `uploadFile` after a successful run of the processor.
  unfoldable pub store_upload :
      String → Option AuthenticatedUser → UploadedFile → Action (Session C) ServerResponse
  store_upload file_name user image s =
      let u = set_hash (server.get_hash s.world) image in
      let (r, obj, w) =
        server.image_store.save u.path (new_store_object u.hash u.mime "original") s.world in
      let s₁ = record s { world = w } in
      elim r [
        | err _ ↦ (ok (error_response 500 "Unable to save image!"), s₁)
        | panic ↦ (panic, s₁)
        | ok _ ↦
            let (r', s₂) = build_thumb_response u u.thumbs [] s₁ in
            elim r' [
              | err _ ↦ (ok (error_response 500 "Unable to process thumbnail!"), s₂)
              | panic ↦ (panic, s₂)
              | ok thumbs ↦ (ok (describe file_name user u obj thumbs (host_of s₂)), s₂)
            ]
      ]

  -- `uploadFile` once there is an upload: `Clean` is deferred, so it comes last on every path.
  unfoldable pub process_upload :
      String → Option AuthenticatedUser → UploadedFile → Action (Session C) ServerResponse
  process_upload file_name user upload s =
      let j : Job = record { image = upload; host = host_of s } in
      let cleaned = λ (u : UploadedFile) (t : Session C). set_host (clean u (host_of t)) t in
      elim (server.processor_strategy server.config j) [
        | err _ ↦ (ok (error_response 500 "Unable to process image!"), cleaned upload s)
        | panic ↦ (panic, cleaned upload s)
        | ok processor ↦
            let (r, j') = processor.process j in
            let s₁ = set_host j'.host s in
            elim r [
              | err _ ↦ (ok (error_response 500 "Unable to process image!"), cleaned j'.image s₁)
              | panic ↦ (panic, cleaned j'.image s₁)
              | ok _ ↦
                  let (resp, s₂) = store_upload file_name user j'.image s₁ in
                  (resp, cleaned j'.image s₂)
            ]
      ]

  -- Without an upload the deferred `Clean` follows a nil pointer.
  unfoldable pub upload_file :
      Reader
      → String
      → List ThumbFile
      → Option AuthenticatedUser
      → Action (Session C) ServerResponse
  upload_file reader file_name thumbs user s =
      let (tmp, s₁) = on_host (save_to_tmp out reader) s in
      elim tmp [
        | err _ ↦ (ok (error_response 500 "Error saving to disk!"), s₁)
        | panic ↦ (panic, s₁)
        | ok tmp_file ↦
            let (r, s₂) = on_host (new_uploaded_file m file_name tmp_file thumbs) s₁ in
            elim r [ ok upload ↦ process_upload file_name user upload s₂ | _ ↦ (panic, s₂) ]
      ]

  -- `resp.Write(w, s.stats); return`
  abbrev pub respond : ServerResponse → Writer → Session C → Outcome × Session C
  respond resp w s = let (w', s') = write_response resp w s in (Outcome.replied w', s')

  unfoldable pub upload_handler :
      FileExtractor C
      → Option AuthenticatedUser
      → Request
      → Writer
      → Session C
      → Outcome × Session C
  upload_handler extractor user r w s =
      let (extracted, s₁) = extractor r s in
      elim extracted [
        | err message ↦ respond (error_response 400 message) w s₁
        | panic ↦ (Outcome.panicked, s₁)
        | ok (reader, file_name) ↦ elim (parse_thumbs out r) [
          | ok thumbs ↦
              let (resp, s₂) = upload_file reader file_name thumbs user s₁ in
              elim resp [ ok answer ↦ respond answer w s₂ | _ ↦ (Outcome.panicked, s₂) ]
          | _ ↦ respond (error_response 400 "Error parsing thumbnails!") w s₁
        ]
      ]
