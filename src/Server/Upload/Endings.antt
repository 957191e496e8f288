-- ===== src/Server/Upload/Endings.antt =====
-- How `uploadFile` of server/server.go ends.
use mandible.Base.{
  String, ◌≡◌, ◌⊎◌, inl, inr, true, false, List, [], Option, none, some, arith, string_eq, eq_iff,
}
use mandible.Base.Dict.{lookup, insert, lookup-insert}
use mandible.Base.Result.{ok, panic, Result-cases}
use mandible.Host.{Machine}
use mandible.Upload.Types.{UploadedFile, ThumbFile}
use mandible.Upload.File.{Job, sniffed, is_supported}
use mandible.Upload.File.Contents.{owns, lookup-clean, new_uploaded_file-refused}
use mandible.Store.Types.{Reader}
use mandible.Server.Types.{Outside, Server, Session, host_of, set_host, save_to_tmp}
use mandible.Server.Auth.{AuthenticatedUser}
use mandible.Server.Upload.{store_upload, process_upload, upload_file}

module _ {C : Type 0} (m : Machine) (out : Outside C) (server : Server C) where
  -- The upload as the processor leaves it, or as it came if there is no processor.
  abbrev pub processed : UploadedFile → Session C → UploadedFile
  processed upload s =
      let j : Job = record { image = upload; host = host_of s } in
      elim (server.processor_strategy server.config j) [ ok p ↦ (p.process j).1.image | _ ↦ upload ]

  -- Whatever becomes of an upload, an error or a panic of a processor or of a store included, no file
  -- of the upload and its thumbnails is left, as the processor leaves them.
  pub process_upload-cleaned :
      (file_name : String) (user : Option AuthenticatedUser) (upload : UploadedFile) (s : Session C)
      (path : String)
      → owns (processed upload s) path ≡ true
      → lookup path (host_of (process_upload m out server file_name user upload s).1).disk ≡ none
  unfolding process_upload
  process_upload-cleaned file_name user upload s path o =
      let j : Job = record { image = upload; host = host_of s } in
      elim (Result-cases (server.processor_strategy server.config j)) [
        | inl (p, e) ↦
            let u = (p.process j).1.image in
            let s₁ = set_host (p.process j).1.host s in
            elim (Result-cases (p.process j).0) [
              | inl (_, f) ↦ ground (
                arith,
                lookup-clean u (host_of (store_upload m out server file_name user u s₁).1) path,
              )
              | inr f ↦ ground (arith, lookup-clean u (host_of s₁) path)
            ]
        | inr e ↦ ground (arith, lookup-clean upload (host_of s) path)
      ]

  -- A file that is saved and then is of no supported type, or empty, ends in a panic, and the file
  -- into which it was saved is left on the disk.
  pub upload_file-refused :
      (reader : Reader) (file_name tmp : String) (thumbs : List ThumbFile)
      (user : Option AuthenticatedUser) (s : Session C)
      → out.temp_file (host_of s).disk ≡ ok tmp
      → reader.fault ≡ none
      → (reader.content ≡ [])
        ⊎ (is_supported (m.detect_content_type (sniffed reader.content)) ≡ false)
      → ((upload_file m out server reader file_name thumbs user s).0 ≡ panic)
        × (lookup tmp (host_of (upload_file m out server reader file_name thumbs user s).1).disk
            ≡ some reader.content)
  unfolding upload_file save_to_tmp
  upload_file-refused reader file_name tmp thumbs user s t f bad =
      let h = record (host_of s) { disk = insert tmp reader.content (host_of s).disk } in
      let found = lookup-insert tmp tmp reader.content (host_of s).disk in
      let (e, refused) =
        new_uploaded_file-refused m file_name tmp thumbs h reader.content
          (ground (arith, found, eq_iff tmp tmp)) bad in
      ground (arith, found, eq_iff tmp tmp)
