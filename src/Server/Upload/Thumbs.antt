-- ===== src/Server/Upload/Thumbs.antt =====
-- What storing the thumbnails of an upload of server/server.go leaves in the store.
use mathlib.Core.Path.{subst}
use mandible.Base.{String, ◌≡◌, ◌≢◌, refl, ap, sym, ◌∙◌, List, [], ◌∷◌, some, All}
use mandible.Base.Dict.{Dict, lookup, insert}
use mandible.Base.Result.{Result, ok}
use mandible.Host.{Host, Machine, Bytes}
use mandible.Upload.Types.{UploadedFile, ThumbFile}
use mandible.Store.Types.{StoreObject, World}
use mandible.Store.Single.{whole}
use mandible.Store.Keeps.{Keeps}
use mandible.Server.Types.{Outside, Server, Session, host_of, note}
use mandible.Server.Stats.{Event}
use mandible.Server.Upload.{thumb_object, build_thumb_response}
use mandible.Server.Upload.Success.{build_thumb_response-ok, build_thumb_response-saved}

module _ {C : Type 0} (m : Machine) (out : Outside C) (server : Server C) where
  -- The object has these bytes in the store, which were those of the file.
  abbrev pub HoldsFile : StoreObject → String → Host → World C → Type 0
  HoldsFile obj path h w =
      (bytes : Bytes) × (lookup path h.disk ≡ some bytes)
      × (server.image_store.get obj w ≡ ok (some (whole bytes)))

module _ {C : Type 0} (m : Machine) (out : Outside C) (server : Server C)
    (key : String → String → String) where
  abbrev pub place : StoreObject → String
  place obj = key obj.id obj.size

  abbrev pub Apart : StoreObject → UploadedFile → List ThumbFile → Type 0
  Apart obj u thumbs = All (λ t. place obj ≢ place (thumb_object m out server u t)) thumbs

  -- No two thumbnails are stored at one place.
  abbrev pub AllApart : UploadedFile → List ThumbFile → Type 0
  AllApart u [] = Unit
  AllApart u (t ∷ thumbs) = Apart (thumb_object m out server u t) u thumbs × AllApart u thumbs

module _ {C : Type 0} (m : Machine) (out : Outside C) (server : Server C)
    (key : String → String → String) (Ready : World C → Type 0) where
  -- What storing thumbnails leaves: the files, other objects, and the thumbnails themselves.
  abbrev pub IsBuilt : UploadedFile → List ThumbFile → Session C → Session C → Type 0
  IsBuilt u thumbs s t =
      Ready t.world
      × (t.world.host ≡ s.world.host)
      × ((obj : StoreObject)
          → Apart m out server key obj u thumbs
          → server.image_store.get obj t.world ≡ server.image_store.get obj s.world)
      × (AllApart m out server key u thumbs
          → All
              (λ t'.
                HoldsFile m out server (thumb_object m out server u t') t'.local_path (host_of s)
                  t.world)
              thumbs)

module _ {C : Type 0} (m : Machine) (out : Outside C) (server : Server C)
    (key : String → String → String) (Ready : World C → Type 0)
    (keeps : Keeps server.image_store key Ready) where
  -- A thumbnail in front of others that leave this.
  pub IsBuilt-cons :
      (u : UploadedFile) (t : ThumbFile) (thumbs : List ThumbFile) (s s' : Session C)
      → let obj = thumb_object m out server u t in
        let saved = server.image_store.save t.local_path obj s.world in
        Ready s.world
        → saved.0 ≡ ok tt
        → IsBuilt m out server key Ready u thumbs
            (note (Event.thumbnail t.name) (record s { world = saved.2 }))
            s'
        → IsBuilt m out server key Ready u (t ∷ thumbs) s s'
  IsBuilt-cons u t thumbs s s' ready e (ready', host', others, held) =
      let obj = thumb_object m out server u t in
      let (bytes, found, got) = keeps.get_save t.local_path obj s.world ready e in
      let same = keeps.host_save t.local_path obj s.world in
      (
        ready',
        host' ∙ same,
        λ other (apart, more).
            others other more ∙ keeps.get_other t.local_path obj other s.world ready e apart,
        λ (apart, more). (
          (bytes, found, others obj apart ∙ got),
          subst
              (λ (h : Host).
                All
                  (λ t'.
                    HoldsFile m out server (thumb_object m out server u t') t'.local_path h
                      s'.world)
                  thumbs)
              same (held more),
        ),
      )

  pub build_thumb_response-IsBuilt :
      (u : UploadedFile) (thumbs : List ThumbFile) (resp answer : Dict String) (s : Session C)
      → Ready s.world
      → (build_thumb_response m out server u thumbs resp s).0 ≡ ok answer
      → IsBuilt m out server key Ready u thumbs s
          (build_thumb_response m out server u thumbs resp s).1
  unfolding build_thumb_response
  build_thumb_response-IsBuilt u [] resp answer s ready h =
      (ready, refl, λ obj apart. refl, λ apart. tt)
  build_thumb_response-IsBuilt u (t ∷ thumbs) resp answer s ready h =
      let obj = thumb_object m out server u t in
      let saved = server.image_store.save t.local_path obj s.world in
      let s₁ = note (Event.thumbnail t.name) (record s { world = saved.2 }) in
      let e = build_thumb_response-saved m out server u t thumbs resp answer s h in
      let step = build_thumb_response-ok m out server u t thumbs resp s e in
      let resp₁ = insert t.name saved.1.url resp in
      let rest = build_thumb_response m out server u thumbs resp₁ s₁ in
      subst
        (λ (r : Result (Dict String) × Session C).
          IsBuilt m out server key Ready u (t ∷ thumbs) s r.1)
        (sym step)
        (IsBuilt-cons u t thumbs s rest.1 ready e (
          build_thumb_response-IsBuilt u thumbs resp₁ answer s₁
            (keeps.ready_save t.local_path obj s.world ready e)
            (ap (λ (r : Result (Dict String) × Session C). r.0) (sym step) ∙ h)))
