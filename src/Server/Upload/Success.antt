-- ===== src/Server/Upload/Success.antt =====
-- What a success of the parts of `uploadFile` in server/server.go says of its calls.

use mandible.Base.{String, ◌≡◌, refl, inl, inr, List, [], ◌∷◌, Option, none, some, arith, length}
use mandible.Base.Int.{pos}
use mandible.Base.Dict.{Dict, lookup, insert}
use mandible.Base.Result.{Result, ok, Result-cases, ⊤}
use mandible.Host.{Host, Machine, Bytes}
use mandible.Upload.Types.{UploadedFile, ThumbFile}
use mandible.Upload.File.{Job, set_hash, file_size, dimensions, clean}
use mandible.Store.Types.{StoreObject, World, new_store_object}
use mandible.Server.Types.{
  Outside, Server, Session, ServerResponse, ImageResponse, Payload, host_of, set_host, note,
}
use mandible.Server.Auth.{AuthenticatedUser}
use mandible.Server.Stats.{Event}
use mandible.Server.Upload.{
  thumb_object, build_thumb_response, describe, store_upload, process_upload,
}

module _ {C : Type 0} (m : Machine) (out : Outside C) (server : Server C) where
  -- A thumbnail that is stored leads on to the others.
  pub build_thumb_response-ok :
      (u : UploadedFile) (t : ThumbFile) (thumbs : List ThumbFile) (resp : Dict String)
      (s : Session C)
      → let obj = thumb_object m out server u t in
        let saved = server.image_store.save t.local_path obj s.world in
        saved.0 ≡ ok tt
        → build_thumb_response m out server u (t ∷ thumbs) resp s
          ≡ build_thumb_response m out server u thumbs
              (insert t.name saved.1.url resp)
              (note (Event.thumbnail t.name) (record s { world = saved.2 }))
  unfolding build_thumb_response
  build_thumb_response-ok u t thumbs resp s e = ground (arith, e)

  pub build_thumb_response-saved :
      (u : UploadedFile) (t : ThumbFile) (thumbs : List ThumbFile) (resp answer : Dict String)
      (s : Session C)
      → (build_thumb_response m out server u (t ∷ thumbs) resp s).0 ≡ ok answer
      → (server.image_store.save t.local_path (thumb_object m out server u t) s.world).0 ≡ ok tt
  unfolding build_thumb_response
  build_thumb_response-saved u t thumbs resp answer s h =
      let saved = server.image_store.save t.local_path (thumb_object m out server u t) s.world in
      elim (Result-cases saved.0) [
        | inl (_, e) ↦ e
        | inr (inl (_, e)) ↦ absurd (ground (arith, h, e))
        | inr (inr e) ↦ absurd (ground (arith, h, e))
      ]

  abbrev pub original : UploadedFile → StoreObject
  original u = new_store_object u.hash u.mime "original"

  -- The upload under its name.
  abbrev pub named : UploadedFile → Session C → UploadedFile
  named image s = set_hash (server.get_hash s.world) image

  abbrev pub saved_image : UploadedFile → Session C → Result ⊤ × StoreObject × World C
  saved_image u s = server.image_store.save u.path (original u) s.world

  abbrev pub built : UploadedFile → Session C → Result (Dict String) × Session C
  built u s =
      build_thumb_response m out server u u.thumbs [] (record s { world = (saved_image u s).2 })

  -- A response with 200 has the size of the file.
  pub describe-success :
      (file_name : String) (user : Option AuthenticatedUser) (u : UploadedFile) (obj : StoreObject)
      (thumbs : Dict String) (h : Host) (bytes : Bytes)
      → lookup u.path h.disk ≡ some bytes
      → (describe m out server file_name user u obj thumbs h).status ≡ 200
      → (i : ImageResponse) × ((describe m out server file_name user u obj thumbs h).payload
          ≡ Payload.image i)
        × (i.hash ≡ u.hash)
        × (i.mime ≡ obj.mime_type)
        × (i.size ≡ pos (length bytes))
  unfolding describe file_size
  describe-success file_name user u obj thumbs h bytes there success =
      elim (Result-cases (dimensions m u h.disk)) [
        | inl (sizes, e) ↦ (
          record {
            link = obj.url;
            mime = obj.mime_type;
            hash = u.hash;
            name = file_name;
            size = pos (length bytes);
            width = sizes.0;
            height = sizes.1;
            ocr_text = u.ocr_text;
            thumbs = thumbs;
            user_id = elim user [ none ↦ "" | some a ↦ a.user_id ];
          },
          ground (arith, there, e),
          refl,
          refl,
          refl,
        )
        | inr (inl (_, e)) ↦ absurd (ground (arith, there, e, success))
        | inr (inr e) ↦ absurd (ground (arith, there, e, success))
      ]

  -- A response with 200 is that of an image and thumbnails that were all saved.
  pub store_upload-success :
      (file_name : String) (user : Option AuthenticatedUser) (image : UploadedFile) (s : Session C)
      (resp : ServerResponse)
      → (store_upload m out server file_name user image s).0 ≡ ok resp
      → resp.status ≡ 200
      → let u = named image s in
        ((saved_image u s).0 ≡ ok tt)
        × ((thumbs : Dict String) × ((built u s).0 ≡ ok thumbs)
            × (describe m out server file_name user u
                  (saved_image u s).1
                  thumbs
                  (host_of (built u s).1)
                ≡ resp)
            × ((store_upload m out server file_name user image s).1 ≡ (built u s).1))
  unfolding store_upload
  store_upload-success file_name user image s resp h success =
      let u = named image s in
      elim (Result-cases (saved_image u s).0) [
        | inl (_, e) ↦ elim (Result-cases (built u s).0) [
          | inl (thumbs, f) ↦ (e, (thumbs, f, ground (arith, e, f, h), ground (arith, e, f)))
          | inr (inl (_, f)) ↦ absurd (ground (arith, e, f, h, success))
          | inr (inr f) ↦ absurd (ground (arith, e, f, h, success))
        ]
        | inr (inl (_, e)) ↦ absurd (ground (arith, e, h, success))
        | inr (inr e) ↦ absurd (ground (arith, e, h, success))
      ]

  -- The upload and the files when the processor has ended, as they came if there is none.
  abbrev pub after_processor : UploadedFile → Session C → Job
  after_processor upload s =
      let j : Job = record { image = upload; host = host_of s } in
      elim (server.processor_strategy server.config j) [ ok p ↦ (p.process j).1 | _ ↦ j ]

  abbrev pub before_store : UploadedFile → Session C → Session C
  before_store upload s = set_host (after_processor upload s).host s

  pub process_upload-success :
      (file_name : String) (user : Option AuthenticatedUser) (upload : UploadedFile) (s : Session C)
      (resp : ServerResponse)
      → (process_upload m out server file_name user upload s).0 ≡ ok resp
      → resp.status ≡ 200
      → let image = (after_processor upload s).image in
        let stored = store_upload m out server file_name user image (before_store upload s) in
        (stored.0 ≡ ok resp)
        × ((process_upload m out server file_name user upload s).1
            ≡ set_host (clean image (host_of stored.1)) stored.1)
  unfolding process_upload
  process_upload-success file_name user upload s resp h success =
      let j : Job = record { image = upload; host = host_of s } in
      elim (Result-cases (server.processor_strategy server.config j)) [
        | inl (p, e) ↦ elim (Result-cases (p.process j).0) [
          | inl (_, f) ↦ (ground (arith, e, f, h), ground (arith, e, f))
          | inr (inl (_, f)) ↦ absurd (ground (arith, e, f, h, success))
          | inr (inr f) ↦ absurd (ground (arith, e, f, h, success))
        ]
        | inr (inl (_, e)) ↦ absurd (ground (arith, e, h, success))
        | inr (inr e) ↦ absurd (ground (arith, e, h, success))
      ]
