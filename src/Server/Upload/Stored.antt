-- ===== src/Server/Upload/Stored.antt =====
-- What an upload that server/server.go answers with 200 has left in the store.
use mathlib.Core.Path.{subst}
use mandible.Base.{String, ◌≡◌, ap, sym, ◌∙◌, List, [], ◌∷◌, Option, some, length, All}
use mandible.Base.Int.{pos}
use mandible.Base.Dict.{lookup}
use mandible.Base.Result.{ok}
use mandible.Host.{Host, Machine, Bytes}
use mandible.Upload.Types.{UploadedFile, ThumbFile}
use mandible.Upload.File.{clean}
use mandible.Store.Types.{StoreObject, World}
use mandible.Store.Single.{whole}
use mandible.Store.Keeps.{Keeps}
use mandible.Server.Types.{
  Outside, Server, Session, ServerResponse, ImageResponse, Payload, host_of,
}
use mandible.Server.Auth.{AuthenticatedUser}
use mandible.Server.Upload.{thumb_object, store_upload, process_upload}
use mandible.Server.Upload.Success.{
  original, named, saved_image, built, describe-success, store_upload-success, after_processor,
  before_store, process_upload-success,
}
use mandible.Server.Upload.Thumbs.{HoldsFile, Apart, AllApart, build_thumb_response-IsBuilt}

module _ {C : Type 0} (m : Machine) (out : Outside C) (server : Server C) where
  -- The response describes the upload, and the store has the file of the image and those of the
  -- thumbnails, as they were on this host.
  abbrev pub IsStored : UploadedFile → ServerResponse → Host → World C → Type 0
  IsStored u resp h w =
      (i : ImageResponse) × (bytes : Bytes) × (resp.payload ≡ Payload.image i)
      × (i.hash ≡ u.hash)
      × (i.mime ≡ u.mime)
      × (i.size ≡ pos (length bytes))
      × (lookup u.path h.disk ≡ some bytes)
      × (server.image_store.get (original m out server u) w ≡ ok (some (whole bytes)))
      × All (λ t. HoldsFile m out server (thumb_object m out server u t) t.local_path h w) u.thumbs

  -- The image as the processor leaves it, under its name.
  abbrev pub stored_image : UploadedFile → Session C → UploadedFile
  stored_image upload s =
      named m out server (after_processor m out server upload s).image
        (before_store m out server upload s)

module _ {C : Type 0} (m : Machine) (out : Outside C) (server : Server C)
    (key : String → String → String) where
  -- The image and its thumbnails are stored at places that differ.
  abbrev pub Distinct : UploadedFile → Type 0
  Distinct u =
      Apart m out server key (original m out server u) u u.thumbs
      × AllApart m out server key u u.thumbs

module _ {C : Type 0} (m : Machine) (out : Outside C) (server : Server C)
    (key : String → String → String) (Ready : World C → Type 0)
    (keeps : Keeps server.image_store key Ready) where
  store_upload-IsStored :
      (file_name : String) (user : Option AuthenticatedUser) (image : UploadedFile) (s : Session C)
      (resp : ServerResponse)
      → Ready s.world
      → (store_upload m out server file_name user image s).0 ≡ ok resp
      → resp.status ≡ 200
      → Distinct m out server key (named m out server image s)
      → IsStored m out server
          (named m out server image s)
          resp
          (host_of s)
          (store_upload m out server file_name user image s).1.world
  store_upload-IsStored file_name user image s resp ready h success (apart, all_apart) =
      let u = named m out server image s in
      let obj = original m out server u in
      let (e, (thumbs, f, described, left)) =
        store_upload-success m out server file_name user image s resp h success in
      let (bytes, found, got) = keeps.get_save u.path obj s.world ready e in
      let s₁ = record s { world = (saved_image m out server u s).2 } in
      let (_, host₂, others, held) =
        build_thumb_response-IsBuilt m out server key Ready keeps u u.thumbs [] thumbs s₁
          (keeps.ready_save u.path obj s.world ready e) f in
      let same : (saved_image m out server u s).2.host ≡ host_of s =
        keeps.host_save u.path obj s.world in
      let whole_host : host_of (built m out server u s).1 ≡ host_of s = host₂ ∙ same in
      let (i, payload, hash, mime, size) =
        describe-success m out server file_name user u (saved_image m out server u s).1 thumbs
          (host_of (built m out server u s).1) bytes
          (ap (λ (k : Host). lookup u.path k.disk) whole_host ∙ found)
          (ap (λ (r : ServerResponse). r.status) described ∙ success) in
      subst (λ (t : Session C). IsStored m out server u resp (host_of s) t.world) (sym left)
        (
          i,
          bytes,
          ap (λ (r : ServerResponse). r.payload) (sym described) ∙ payload,
          hash,
          mime ∙ ap (λ (o : StoreObject). o.mime_type) (keeps.names u.path obj s.world),
          size,
          found,
          others obj apart ∙ got,
          subst
              (λ (k : Host).
                All
                  (λ t.
                    HoldsFile m out server (thumb_object m out server u t) t.local_path k
                      (built m out server u s).1.world)
                  u.thumbs)
              same (held all_apart),
        )

  -- Changes of the host's files do not matter to the store.
  HoldsFile-host :
      (u : UploadedFile) (h : Host) (w : World C) (k : Host) (thumbs : List ThumbFile)
      → All (λ t. HoldsFile m out server (thumb_object m out server u t) t.local_path h w) thumbs
      → All
          (λ t.
            (HoldsFile m out server)
              (thumb_object m out server u t)
              t.local_path
              h
              (record w { host = k }))
          thumbs
  HoldsFile-host u h w k [] all = tt
  HoldsFile-host u h w k (t ∷ thumbs) ((bytes, found, got), all) = (
    (bytes, found, keeps.get_host (thumb_object m out server u t) w k ∙ got),
    HoldsFile-host u h w k thumbs all,
  )

  -- An upload that is answered with 200 is in the store, where the store keeps what is saved and the
  -- places of the image and its thumbnails differ: the response names the hash, the type and the size
  -- of the image as the processor left it, and once the files of the upload have been removed, the
  -- store still gives the bytes of the image under that hash, and those of each thumbnail under the
  -- hash and its name.
  pub process_upload-IsStored :
      (file_name : String) (user : Option AuthenticatedUser) (upload : UploadedFile) (s : Session C)
      (resp : ServerResponse)
      → Ready s.world
      → (process_upload m out server file_name user upload s).0 ≡ ok resp
      → resp.status ≡ 200
      → Distinct m out server key (stored_image m out server upload s)
      → IsStored m out server
          (stored_image m out server upload s)
          resp
          (host_of (before_store m out server upload s))
          (process_upload m out server file_name user upload s).1.world
  process_upload-IsStored file_name user upload s resp ready h success distinct =
      let image = (after_processor m out server upload s).image in
      let s₁ = before_store m out server upload s in
      let (stored, left) =
        process_upload-success m out server file_name user upload s resp h success in
      let s₂ = (store_upload m out server file_name user image s₁).1 in
      let removed = clean image (host_of s₂) in
      let u = named m out server image s₁ in
      let h₁ = host_of s₁ in
      let (i, bytes, payload, hash, mime, size, found, got, held) =
        store_upload-IsStored file_name user image s₁ resp
          (keeps.ready_host s.world (after_processor m out server upload s).host ready) stored
          success distinct in
      subst
        (λ (t : Session C).
          IsStored m out server (named m out server image s₁) resp (host_of s₁) t.world)
        (sym left)
        (
          i,
          bytes,
          payload,
          hash,
          mime,
          size,
          found,
          keeps.get_host (original m out server (named m out server image s₁)) s₂.world removed
              ∙ got,
          HoldsFile-host u h₁ s₂.world removed u.thumbs held,
        )
