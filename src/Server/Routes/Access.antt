-- ===== src/Server/Routes/Access.antt =====
-- Who reaches what through the routes of server/server.go.
use mandible.Base.{◌≡◌, refl, ◌≢◌, inl, inr, some, arith, string_eq, eq_iff, Option-cases}
use mandible.Base.Dict.{lookup}
use mandible.Base.Result.{ok, Result-cases}
use mandible.Host.{Machine}
use mandible.Upload.Thumb.{Floats}
use mandible.Process.Strategy.{Schedule}
use mandible.Server.Types.{Outside, Server, Session}
use mandible.Server.Auth.{AuthenticatedUser}
use mandible.Server.Http.{Request}
use mandible.Server.Response.{Writer}
use mandible.Server.Extract.{FileExtractor}
use mandible.Server.Upload.{Outcome, upload_handler}
use mandible.Server.Routes.{authenticated_endpoint, routes}

module _ {C : Type 0} (F : Floats) (m : Machine) (schedule : Schedule) (out : Outside C)
    (server : Server C) where
  module _ (extractor : FileExtractor C) (r : Request) (w : Writer) (s : Session C) where
    abbrev outcome : Outcome × Session C
    outcome = authenticated_endpoint F m schedule out server extractor r w s

    -- A request to a user's endpoint is treated as an upload, and so leaves any trace, only if the
    -- authenticator accepts it as one of the very user that its path names.
    pub authenticated_endpoint-owner :
        outcome.1 ≢ s
        → (u : AuthenticatedUser) × (server.authenticator r ≡ ok u)
          × (lookup "user_id" r.vars ≡ some u.user_id)
          × (outcome ≡ upload_handler m out server extractor (some u) r w s)
    unfolding authenticated_endpoint
    authenticated_endpoint-owner h = elim (Option-cases (lookup "user_id" r.vars)) [
      | inl missing ↦ absurd (h (rw missing refl))
      | inr (v, named) ↦ elim (Result-cases (server.authenticator r)) [
        | inl (u, accepted) ↦ (
          u,
          accepted,
          ground (arith, eq_iff v "", eq_iff u.user_id v),
          ground (arith, eq_iff v "", eq_iff u.user_id v),
        )
        | inr refused ↦ absurd (h (ground arith))
      ]
    ]

  -- The endpoint for a user's file does what the one for base64 data does.
  pub routes-user_file :
      lookup "/user/{user_id}/file" (routes F m schedule out server)
      ≡ lookup "/user/{user_id}/base64" (routes F m schedule out server)
  unfolding lookup routes
  routes-user_file = refl
