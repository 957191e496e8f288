-- ===== src/Server/Extract/Sources.antt =====
-- Where server/server.go takes an image from.
use mandible.Base.{
  String, ◌≡◌, refl, ◌≢◌, ◌↔◌, inl, inr, List, [], ◌∷◌, none, map, arith, ap, suc, nat_eq,
  string_eq, eq_iff, All, length,
}
use mandible.Base.Int.{pos, int_eq}
use mandible.Base.Result.{ok, Result-cases}
use mandible.Upload.Types.{ThumbFile}
use mandible.Store.Types.{Reader, World}
use mandible.Server.Types.{Outside, Server, ThumbRequest}
use mandible.Server.Http.{Request, HttpResponse}
use mandible.Server.Extract.{download, thumb_of, parse_thumbs}

-- A download gives a body exactly if the request can be made, the answer has the status 200, its length
-- is not zero, and the body is that of the answer. It is fetched with the configured user agent.
pub download_iff :
    {C : Type 0} (out : Outside C) (server : Server C) (url : String) (w : World C) (body : Reader)
    → (download out server url w ≡ ok body) ↔ (
        (resp : HttpResponse) × (out.new_request url ≡ none)
        × (out.fetch server.config.user_agent url w ≡ ok resp)
        × (resp.status_code ≡ 200)
        × (resp.content_length ≢ pos 0)
        × (resp.body ≡ body))
unfolding download
download_iff out server url w body = (
  λ h. elim (Result-cases (out.fetch server.config.user_agent url w)) [
    | inl (resp, e) ↦ (resp, ground arith, e, ground arith, ground arith, ground arith)
    | inr e ↦ absurd (ground arith)
  ],
  λ (resp, a, b, c, d, e). ground arith,
)

length-map : {A B : Type 0} (f : A → B) (xs : List A) → length (map f xs) ≡ length xs
length-map f [] = refl
length-map f (x ∷ xs) = ap suc (length-map f xs)

map-thumb_of-quality :
    (requests : List (String × ThumbRequest))
    → All (λ (t : ThumbFile). t.quality ≢ pos 0) (map thumb_of requests)
unfolding thumb_of
map-thumb_of-quality [] = tt
map-thumb_of-quality (t ∷ requests) = (ground arith, map-thumb_of-quality requests)

-- The thumbnails of a request are as many as its JSON asks for, and each has a quality: a missing one,
-- or zero, is replaced by the default. No text asks for none, and what cannot be read is an error.
pub parse_thumbs-quality :
    {C : Type 0} (out : Outside C) (r : Request)
    → (r.form_value "thumbs" ≡ "" → parse_thumbs out r ≡ ok [])
      × ((requests : List (String × ThumbRequest))
          → r.form_value "thumbs" ≢ ""
          → out.unmarshal_thumbs (r.form_value "thumbs") ≡ ok requests
          → (thumbs : List ThumbFile) × (parse_thumbs out r ≡ ok thumbs)
            × (length thumbs ≡ length requests)
            × All (λ (t : ThumbFile). t.quality ≢ pos 0) thumbs)
unfolding parse_thumbs
parse_thumbs-quality out r = (
  λ none_asked. ground (arith, eq_iff (r.form_value "thumbs") ""),
  λ requests asked read. (
    map thumb_of requests,
    ground (arith, eq_iff (r.form_value "thumbs") ""),
    length-map thumb_of requests,
    map-thumb_of-quality requests,
  ),
)
