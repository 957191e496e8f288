-- ===== src/Server/Leftovers.antt =====
-- What the handlers of server/server.go for thumbnails and for text leave on the disk.
use mandible.Base.{String, ◌≡◌, ◌≢◌, List, [], ◌∷◌, none, some, arith, string_eq, eq_iff}
use mandible.Base.Dict.{lookup, erase, lookup-erase}
use mandible.Base.Result.{ok}
use mandible.Host.{Disk, Machine}
use mandible.Upload.Types.{ThumbFile}
use mandible.Upload.Thumb.{Floats}
use mandible.Process.Strategy.{Schedule}
use mandible.Store.Types.{Reader, new_store_object}
use mandible.Server.Types.{Outside, Server, Session, host_of, on_host, save_to_tmp}
use mandible.Server.Http.{Request}
use mandible.Server.Extract.{parse_thumbs}
use mandible.Server.Response.{Writer}
use mandible.Server.Thumbnail.{thumbnail_of, thumbnail_handler}
use mandible.Server.Ocr.{ocr_of, ocr_handler}

lookup-erase_same : (path : String) (d : Disk) → lookup path (erase path d) ≡ none
lookup-erase_same path d = ground (arith, eq_iff path path, lookup-erase path path d)

module _ {C : Type 0} (F : Floats) (m : Machine) (schedule : Schedule) (out : Outside C)
    (server : Server C) (w : Writer) (s : Session C) where
  lookup-thumbnail_of :
      (image_id path : String) (thumbs : List ThumbFile)
      → lookup path (host_of (thumbnail_of F m schedule out server image_id path thumbs w s).1).disk
        ≡ none
  unfolding thumbnail_of
  lookup-thumbnail_of image_id path thumbs = lookup-erase_same path _

  lookup-ocr_of :
      (image_id path : String)
      → lookup path (host_of (ocr_of m schedule out server image_id path w s).1).disk ≡ none
  unfolding ocr_of
  lookup-ocr_of image_id path = lookup-erase_same path _

module _ {C : Type 0} (F : Floats) (m : Machine) (schedule : Schedule) (out : Outside C)
    (server : Server C) (r : Request) (w : Writer) (s : Session C) (path : String) (reader : Reader)
    (fetched : server.image_store.get (new_store_object (r.form_value "uid") "" "original") s.world
      ≡ ok (some reader))
    (named : out.temp_file (host_of s).disk ≡ ok path) (readable : reader.fault ≡ none) where
  -- Once an original that a thumbnail is asked of has been saved to a temporary file, that file is gone
  -- at the end of the request, however it ends.
  pub lookup-thumbnail_handler :
      (t : ThumbFile)
      → parse_thumbs out r ≡ ok (t ∷ [])
      → lookup path (host_of (thumbnail_handler F m schedule out server r w s).1).disk ≡ none
  unfolding thumbnail_handler save_to_tmp
  lookup-thumbnail_handler t parsed =
      let saved = on_host (save_to_tmp out reader) s in
      ground (
        arith,
        lookup-thumbnail_of F m schedule out server w saved.1 (r.form_value "uid") path (t ∷ []),
      )

  -- Once an original whose text is asked for has been saved to a temporary file, that file is gone at
  -- the end of the request, however it ends.
  pub lookup-ocr_handler :
      r.form_value "uid" ≢ ""
      → lookup path (host_of (ocr_handler m schedule out server r w s).1).disk ≡ none
  unfolding ocr_handler save_to_tmp
  lookup-ocr_handler given =
      let saved = on_host (save_to_tmp out reader) s in
      ground (
        arith,
        eq_iff (r.form_value "uid") "",
        lookup-ocr_of F m schedule out server w saved.1 (r.form_value "uid") path,
      )
