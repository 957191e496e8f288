-- ===== src/Server/Extract.antt =====
-- server/server.go: what a request asks for, and where the image comes from.
pub mod Sources
use mandible.Base.{String, List, [], none, some, map, not, ◌==◌, nat_eq, string_eq, if◌then◌else◌}
use mandible.Base.Int.{pos, int_eq}
use mandible.Base.Result.{Result, ok, err, panic, Action}
use mandible.Host.{Machine}
use mandible.Upload.Types.{ThumbFile, new_thumb_file}
use mandible.Store.Types.{Reader, World}
use mandible.Server.Types.{Outside, Server, Session, ThumbRequest, note}
use mandible.Server.Http.{Request, HttpResponse, base_name, base64_part}
use mandible.Server.Stats.{Event}

-- `fileExtractor`; the error is the message for the user.
abbrev pub FileExtractor : Type 0 → Type 0
FileExtractor C = Request → Action (Session C) (Reader × String)

module _ {C : Type 0} where
  unfoldable pub extractor_file : FileExtractor C
  extractor_file r s = elim (r.form_file "image") [
    | ok (reader, filename) ↦ (ok (reader, filename), note (Event.upload "file") s)
    | err _ ↦ (err "Error processing file", s)
    | panic ↦ (panic, s)
  ]

  module _ (out : Outside C) (server : Server C) where
    unfoldable pub download : String → World C → Result Reader
    download url w = elim (out.new_request url) [
      | some e ↦ err e
      | none ↦ elim (out.fetch server.config.user_agent url w) [
        | err e ↦ err e
        | panic ↦ panic
        | ok resp ↦
            if not (resp.status_code == 200)
            then err "Non-200 status code received"
            else if resp.content_length == pos 0
            then err "Empty file received"
            else ok resp.body
      ]
    ]

    unfoldable pub extractor_url : FileExtractor C
    unfolding download base_name
    extractor_url r s =
        let url = r.form_value "image" in
        elim (download url s.world) [
          | ok reader ↦ (ok (reader, base_name url), note (Event.upload "url") s)
          | err _ ↦ (err "Error downloading URL!", s)
          | panic ↦ (panic, s)
        ]

    unfoldable pub extractor_base64 : FileExtractor C
    unfolding base64_part
    extractor_base64 r s = (
      ok (out.base64_reader (base64_part (r.form_value "image")), ""),
      note (Event.upload "base64") s,
    )

-- The body of the loop of `parseThumbs`.
unfoldable pub thumb_of : String × ThumbRequest → ThumbFile
unfolding new_thumb_file
thumb_of (name, t) =
    new_thumb_file t.width t.max_width t.height t.max_height name t.shape "" t.crop_gravity
      t.crop_width t.crop_height t.crop_ratio t.quality t.desired_format t.no_store

unfoldable pub parse_thumbs : {C : Type 0} → Outside C → Request → Result (List ThumbFile)
unfolding thumb_of
parse_thumbs out r =
    let text = r.form_value "thumbs" in
    if text == "" then ok [] else elim (out.unmarshal_thumbs text) [
      | ok requests ↦ ok (map thumb_of requests)
      | _ ↦ err "Error parsing thumbnail JSON!"
    ]
