-- ===== src/Server/Thumbnail.antt =====
-- server/server.go: `thumbnailHandler`.
use mandible.Base.{ℕ, String, ◌<>◌, List, [], ◌∷◌, none, some, if◌then◌else◌}
use mandible.Base.Dict.{lookup}
use mandible.Base.Result.{ok, err, panic}
use mandible.Host.{Machine, remove}
use mandible.Upload.Types.{UploadedFile, ThumbFile}
use mandible.Upload.File.{Job, new_uploaded_file, set_hash, clean}
use mandible.Upload.Thumb.{Floats}
use mandible.Process.Strategy.{Schedule, thumbnail_strategy}
use mandible.Store.Types.{new_store_object, store_object}
use mandible.Server.Types.{
  Outside, Server, Session, error_response, host_of, set_host, note, on_host, save_to_tmp,
}
use mandible.Server.Http.{Request, write_header, write}
use mandible.Server.Stats.{Event}
use mandible.Server.Extract.{parse_thumbs}
use mandible.Server.Response.{Part, Writer}
use mandible.Server.Upload.{Outcome, respond, thumb_object}

module _ {C : Type 0} (F : Floats) (m : Machine) (schedule : Schedule) (out : Outside C)
    (server : Server C) where
  abbrev refuse : ℕ → String → Writer → Session C → Outcome × Session C
  refuse status message = respond m out server (error_response status message)

  -- `http.ServeFile`
  unfoldable pub serve_file : String → Writer → Session C → Outcome × Session C
  serve_file path w s = elim (lookup path (host_of s).disk) [
    | none ↦ (Outcome.replied (write (Part.page "404 page not found") (write_header 404 w)), s)
    | some bytes ↦ (Outcome.replied (write (Part.file bytes) w), s)
  ]

  -- The handler once its thumbnail is made: it is stored unless the request says not to.
  unfoldable pub store_and_serve :
      UploadedFile → ThumbFile → Writer → Session C → Outcome × Session C
  store_and_serve u t w s =
      let serve =
        λ (s' : Session C). serve_file t.local_path w (note (Event.thumbnail t.name) s') in
      if t.no_store
      then serve s
      else let (r, _, world) =
          store_object server.image_store t.local_path (thumb_object m out server u t) s.world in
        let s' = record s { world = world } in
        elim r [
          | ok _ ↦ serve s'
          | err _ ↦ refuse 500 "Unable to store thumbnail!" w s'
          | panic ↦ (Outcome.panicked, s')
        ]

  -- The deferred `Clean`.
  abbrev cleaned : UploadedFile → Outcome × Session C → Outcome × Session C
  cleaned u (outcome, s) = (outcome, set_host (clean u (host_of s)) s)

  -- The handler once there is an upload; the deferred `Clean` comes last.
  unfoldable pub make_thumbnail : UploadedFile → Writer → Session C → Outcome × Session C
  make_thumbnail u w s =
      let j : Job = record { image = u; host = host_of s } in
      elim (thumbnail_strategy F m schedule server.config j) [
        | ok processor ↦
            let (r, j') = processor.process j in
            let s' = set_host j'.host s in
            cleaned j'.image (elim r [
              | ok _ ↦ elim j'.image.thumbs [
                | t ∷ _ ↦ store_and_serve j'.image t w s'
                | [] ↦ (Outcome.panicked, s')
              ]
              | err _ ↦ refuse 500 "Unable to process thumbnail!" w s'
              | panic ↦ (Outcome.panicked, s')
            ])
        | _ ↦ cleaned u (Outcome.panicked, s)
      ]

  -- The handler once the original is in a file, which a deferred call removes.
  unfoldable pub thumbnail_of :
      String → String → List ThumbFile → Writer → Session C → Outcome × Session C
  thumbnail_of image_id store_file thumbs w s =
      let (r, s') = on_host (new_uploaded_file m "" store_file thumbs) s in
      let (outcome, s'') = elim r as (λ _. Outcome × Session C) [
        | ok u ↦ make_thumbnail (set_hash image_id u) w s'
        | _ ↦ refuse 500 "Unable to process thumbnail!" w s'
      ] in
      (outcome, set_host (remove store_file (host_of s'')) s'')

  unfoldable pub thumbnail_handler : Request → Writer → Session C → Outcome × Session C
  thumbnail_handler r w s =
      let image_id = r.form_value "uid" in
      elim (parse_thumbs out r) [
        | ok (t ∷ []) ↦
            elim (server.image_store.get (new_store_object image_id "" "original") s.world) [
              | ok (some reader) ↦
                  let (tmp, s') = on_host (save_to_tmp out reader) s in
                  elim tmp [
                    | ok store_file ↦ thumbnail_of image_id store_file (t ∷ []) w s'
                    | err _ ↦ refuse 500 "Error saving original Image!" w s'
                    | panic ↦ (Outcome.panicked, s')
                  ]
              | ok none ↦ (Outcome.panicked, s)
              | err _ ↦ refuse 404 ("Error retrieving image with ID: " <> image_id) w s
              | panic ↦ (Outcome.panicked, s)
            ]
        | ok _ ↦ refuse 400 "Wrong number of thumbnails, expected 1" w s
        | _ ↦ refuse 400 "Error parsing thumbnails!" w s
      ]
