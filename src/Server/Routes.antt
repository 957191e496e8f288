-- ===== src/Server/Routes.antt =====
-- server/server.go: `Configure`, and the constructors of a server.
pub mod Access
use mandible.Base.{
  ℕ, String, ◌<>◌, Bool, not, ◌||◌, List, [], ◌∷◌, Option, none, some, ◌==◌, string_eq,
  if◌then◌else◌,
}
use mandible.Base.Dict.{lookup}
use mandible.Base.Result.{Result, ok, err, panic}
use mandible.Host.{Machine}
use mandible.Upload.Thumb.{Floats}
use mandible.Process.Strategy.{Schedule}
use mandible.Server.Types.{Outside, Server, Session, note}
use mandible.Server.Auth.{AuthenticatedUser}
use mandible.Server.Http.{Request, write_header, write}
use mandible.Server.Stats.{Event}
use mandible.Server.Response.{Part, Writer}
use mandible.Server.Extract.{FileExtractor, extractor_file, extractor_url, extractor_base64}
use mandible.Server.Upload.{Outcome, upload_handler}
use mandible.Server.Thumbnail.{thumbnail_handler}
use mandible.Server.Ocr.{ocr_handler}

abbrev pub Handler : Type 0 → Type 0
Handler C = Request → Writer → Session C → Outcome × Session C

-- The page of the root.
abbrev welcome : String
welcome = "Congratulations! Your image upload server is up and running."

module _ {C : Type 0} (F : Floats) (m : Machine) (schedule : Schedule) (out : Outside C)
    (server : Server C) where
  -- Only the text of the page is kept, not its markup.
  unfoldable pub root_handler : Handler C
  unfolding write write_header
  root_handler r w s = (Outcome.replied (write (Part.page welcome) w), s)

  -- After the status 401 the error is logged by its message, also where there is a user and the
  -- error is nil.
  unfoldable pub authenticated_endpoint : FileExtractor C → Handler C
  authenticated_endpoint extractor r w s =
      let attempted = elim (lookup "user_id" r.vars) as (λ _. String) [ none ↦ "" | some v ↦ v ] in
      if attempted == ""
      then (Outcome.replied (write_header 400 w), s)
      else elim (server.authenticator r) [
        | ok user ↦
            if not (user.user_id == attempted)
            then (Outcome.panicked, s)
            else upload_handler m out server extractor (some user) r w s
        | err _ ↦ (Outcome.replied (write_header 401 w), s)
        | panic ↦ (Outcome.panicked, s)
      ]

  -- `elapsed` is the time that the handler takes. After a panic it is not reported.
  unfoldable pub request_middleware : ℕ → Handler C → Handler C
  request_middleware elapsed handler r w s =
      let (outcome, s') = handler r w (note (Event.request r.path) s) in
      (
        outcome,
        elim outcome [
          | Outcome.replied _ ↦ note (Event.response_time elapsed r.path) s'
          | Outcome.panicked ↦ s'
        ],
      )

  -- The routes, in the order in which they are registered.
  unfoldable pub routes : List (String × Handler C)
  unfolding upload_handler extractor_file extractor_url extractor_base64 authenticated_endpoint
      thumbnail_handler ocr_handler root_handler
  routes =
      ("/file", upload_handler m out server extractor_file none)
      ∷ ("/url", upload_handler m out server (extractor_url out server) none)
      ∷ ("/base64", upload_handler m out server (extractor_base64 out server) none)
      ∷ ("/user/{user_id}/file", authenticated_endpoint (extractor_base64 out server))
      ∷ ("/user/{user_id}/url", authenticated_endpoint (extractor_url out server))
      ∷ ("/user/{user_id}/base64", authenticated_endpoint (extractor_base64 out server))
      ∷ ("/thumbnail", thumbnail_handler F m schedule out server)
      ∷ ("/ocr", ocr_handler m schedule out server)
      ∷ ("/", root_handler)
      ∷ []
