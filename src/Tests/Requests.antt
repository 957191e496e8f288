-- ===== src/Tests/Requests.antt =====
-- The theorems on the server, at a request of one user.
use mathlib.Core.Path.{subst}
use mandible.Base.{◌≡◌, refl, ◌≢◌, ◌↔◌, inr, [], ◌∷◌, none, some, arith, nat_eq}
use mandible.Base.Int.{pos, wrap64, ◌≤ℤ◌}
use mandible.Base.Dict.{lookup}
use mandible.Base.Result.{Result, ok, err, panic}
use mandible.Process.Types.{run_all}
use mandible.Store.Types.{Reader}
use mandible.Store.Single.{files}
use mandible.Server.Types.{host_of}
use mandible.Server.Auth.{
  AuthenticatedUser, expiry, get_user, new_hmac_authenticator, err_expired_grant,
}
use mandible.Server.Auth.Grants.{Grants, get_user_iff, get_user-new_hmac_authenticator}
use mandible.Server.Http.{HttpResponse, fresh_writer}
use mandible.Server.Stats.{Network}
use mandible.Server.Extract.{download, parse_thumbs, thumb_of, extractor_base64}
use mandible.Server.Extract.Sources.{download_iff}
use mandible.Server.Upload.{process_upload, upload_file, upload_handler}
use mandible.Server.Upload.Replies.{IsReply, upload_handler-IsReply}
use mandible.Server.Upload.Endings.{process_upload-cleaned, upload_file-refused}
use mandible.Server.Thumbnail.{thumbnail_handler}
use mandible.Server.Leftovers.{lookup-thumbnail_handler}
use mandible.Tests.Data.{
  machine, floats, schedule, outside, server, session, world, writer, request, reader, upload, user,
  codec, authenticator, thumb_request,
}

upload_handler-IsReply_example :
    IsReply machine outside server
      (extractor_base64 outside server)
      request
      session
      (upload_handler machine outside server
        (extractor_base64 outside server)
        none
        request
        fresh_writer
        session).0
upload_handler-IsReply_example =
    upload_handler-IsReply machine outside server (extractor_base64 outside server) request session
      none

process_upload-cleaned_example :
    lookup "/tmp/u"
      (host_of (process_upload machine outside server "cat.jpg" none upload session).1).disk
    ≡ none
unfolding run_all
process_upload-cleaned_example =
    process_upload-cleaned machine outside server "cat.jpg" none upload session "/tmp/u" refl

abbrev text_reader : Reader
text_reader = record { content = 104 ∷ 105 ∷ []; fault = none }

upload_file-refused_example :
    ((upload_file machine outside server text_reader "notes.txt" [] none session).0 ≡ panic)
    × (lookup "/tmp/t"
          (host_of
            (upload_file machine outside server text_reader "notes.txt" [] none session).1).disk
        ≡ some (104 ∷ 105 ∷ []))
upload_file-refused_example =
    upload_file-refused machine outside server text_reader "notes.txt" "/tmp/t" [] none session refl
      refl (inr refl)

get_user_iff_example :
    (get_user codec authenticator request ≡ ok user) ↔ Grants codec authenticator request user
get_user_iff_example = get_user_iff codec authenticator request user

-- The grant, if it can be read, ends after the zero time.
abbrev EndsLater : Result AuthenticatedUser → Type 0
EndsLater (ok u) = pos 0 ≤ℤ expiry u
EndsLater (err _) = Unit
EndsLater panic = Unit

user-EndsLater : EndsLater (ok user)
unfolding expiry wrap64
user-EndsLater = omega arith

get_user-new_hmac_authenticator_example :
    get_user codec (new_hmac_authenticator (1 ∷ 2 ∷ [])) request ≢ err err_expired_grant
get_user-new_hmac_authenticator_example =
    get_user-new_hmac_authenticator codec (1 ∷ 2 ∷ []) request
      (λ u e. subst EndsLater e user-EndsLater)

-- No host has an address.
abbrev offline : Network Unit
offline = record { parse_ip = λ _. none; lookup_ip = λ _. []; new_godspeed = λ _. ok tt }

download_iff_example : (download outside server "http://a/b.jpg" world ≡ ok reader) ↔ (
    (resp : HttpResponse) × (outside.new_request "http://a/b.jpg" ≡ none)
    × (outside.fetch "agent" "http://a/b.jpg" world ≡ ok resp)
    × (resp.status_code ≡ 200)
    × (resp.content_length ≢ pos 0)
    × (resp.body ≡ reader))
download_iff_example = download_iff outside server "http://a/b.jpg" world reader

lookup-thumbnail_handler_example :
    lookup "/tmp/t"
      (host_of
        (thumbnail_handler floats machine schedule outside server request writer session).1).disk
    ≡ none
unfolding parse_thumbs lookup files
lookup-thumbnail_handler_example =
    lookup-thumbnail_handler floats machine schedule outside server request writer session "/tmp/t"
      reader refl refl refl (thumb_of ("small", thumb_request)) refl
