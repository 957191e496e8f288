-- ===== src/Server/Main/Users.antt =====
-- What a request changes on the user routes of a server that main.go starts.
use mathlib.Core.Option.{some-injective}
use mandible.Base.{
  ℕ, String, ◌<>◌, ◌≡◌, ◌≢◌, ap, sym, ◌∙◌, refl, ◌⊎◌, inl, inr, List, some, arith, string_eq,
}
use mandible.Base.Dict.{lookup}
use mandible.Base.Text.{show_int}
use mandible.Base.Int.{ℤ, pos}
use mandible.Base.Result.{ok, Result-cases}
use mandible.Config.{Configuration, new_configuration}
use mandible.Host.{Machine}
use mandible.Upload.Thumb.{Floats}
use mandible.Process.Strategy.{Schedule, everything_strategy}
use mandible.Store.Types.{World, ImageStore}
use mandible.Store.Factory.{Services}
use mandible.Server.Types.{Outside, Server, Session, note}
use mandible.Server.Http.{Request}
use mandible.Server.Response.{Writer}
use mandible.Server.Auth.{AuthenticatedUser, Codec}
use mandible.Server.Auth.Grants.{Grants}
use mandible.Server.Stats.{Network, Event}
use mandible.Server.Extract.{FileExtractor, extractor_url, extractor_base64}
use mandible.Server.Routes.{Handler, authenticated_endpoint, request_middleware, routes}
use mandible.Server.Routes.Access.{authenticated_endpoint-owner}
use mandible.Server.Setup.{Stats, choose_stats, choose_server}
use mandible.Server.Setup.Gates.{choose_server-Grants}
use mandible.Server.Main.{Launch, Environment, log_startup, configure, serve, main}

-- The routes on which a user is named.
abbrev pub IsUserRoute : String → Type 0
IsUserRoute route =
    (route ≡ "/user/{user_id}/file")
    ⊎ ((route ≡ "/user/{user_id}/url") ⊎ (route ≡ "/user/{user_id}/base64"))

module _ {C Dog : Type 0} (F : Floats) (m : Machine) (schedule : Schedule) (out : Outside C)
    (services : Services C) (order : World C → List (ImageStore C) → List (ImageStore C))
    (hashes : ImageStore C → ℤ → World C → String) (codec : Codec) (net : Network Dog)
    (env : Environment) where
  abbrev launched : World C → Launch C Dog × World C
  launched w = main F m schedule out services order hashes codec net env w

  -- A server that listens is the one that was chosen.
  pub main-listening :
      (w : World C) (port : String) (server : Server C) (stats : Stats Dog)
      (handlers : List (String × (ℕ → Handler C)))
      → (launched w).0 ≡ Launch.listening port server stats handlers
      → (cfg : Configuration) × ((new_configuration env.decode
            (env.getenv "MANDIBLE_CONF")
            w.host).0
          ≡ ok cfg)
        × (choose_stats m services order hashes net cfg ≡ ok stats)
        × (log_startup stats ≡ ok tt)
        × ((choose_server m services order hashes codec env.bytes_of
              (env.getenv "AUTHENTICATION_HMAC_KEY")
              cfg
              (everything_strategy F m schedule)
              w).0
            ≡ ok server)
        × (handlers ≡ configure F m schedule out server)
  unfolding main serve
  main-listening w port server stats handlers h =
      let config = new_configuration env.decode (env.getenv "MANDIBLE_CONF") w.host in
      elim (Result-cases config.0) [
        | inl (cfg, e) ↦ elim (Result-cases (choose_stats m services order hashes net cfg)) [
          | inl (st, f) ↦
              let chosen =
                choose_server m services order hashes codec env.bytes_of
                  (env.getenv "AUTHENTICATION_HMAC_KEY") cfg (everything_strategy F m schedule) w in
              elim (Result-cases chosen.0) [
                | inl (srv, g) ↦ elim (Result-cases (log_startup st)) [
                  | inl (_, k) ↦
                      let same : (launched w).0
                          ≡ Launch.listening (":" <> show_int cfg.port) srv st
                              (configure F m schedule out srv) =
                        ground arith in
                      (
                        cfg,
                        e,
                        f ∙ ap ok (cc (same, h)),
                        ap log_startup (cc (same, h)) ∙ k,
                        g ∙ ap ok (cc (same, h)),
                        cc (same, h),
                      )
                  | inr bad ↦ absurd (ground arith)
                ]
                | inr bad ↦ absurd (ground arith)
              ]
          | inr bad ↦ absurd (ground arith)
        ]
        | inr bad ↦ absurd (ground arith)
      ]

  module _ (server : Server C) (extractor : FileExtractor C) (elapsed : ℕ) (r : Request)
      (writer : Writer) (s : Session C) where
    abbrev user_route : Handler C
    user_route = authenticated_endpoint F m schedule out server extractor

    -- The middleware changes nothing but the statistics.
    request_middleware-world :
        (request_middleware F m schedule out server elapsed user_route r writer s).1.world
        ≡ (user_route r writer (note (Event.request r.path) s)).1.world
    unfolding request_middleware
    request_middleware-world = ground arith

  -- Each of them is served by the endpoint that asks the authenticator, behind the middleware.
  configure-user_route :
      (server : Server C) (route : String) (handle : ℕ → Handler C)
      → IsUserRoute route
      → lookup route (configure F m schedule out server) ≡ some handle
      → (extractor : FileExtractor C) × (handle ≡ λ elapsed.
          request_middleware F m schedule out server elapsed
            (authenticated_endpoint F m schedule out server extractor))
  unfolding lookup configure routes
  configure-user_route server route handle (inl file) h =
      (extractor_base64 out server, some-injective _ _ (sym h ∙ rw file refl))
  configure-user_route server route handle (inr (inl url)) h =
      (extractor_url out server, some-injective _ _ (sym h ∙ rw url refl))
  configure-user_route server route handle (inr (inr base64)) h =
      (extractor_base64 out server, some-injective _ _ (sym h ∙ rw base64 refl))

  -- On a route for the files, addresses or base64 data of a user, as main serves it, a request changes
  -- the world only if there is a key, and it rests on a grant under that key for the very user that
  -- the path names, the time being left at the zero time.
  pub main-Grants :
      (w : World C) (port : String) (server : Server C) (stats : Stats Dog)
      (handlers : List (String × (ℕ → Handler C))) (route : String) (handle : ℕ → Handler C)
      (elapsed : ℕ) (r : Request) (writer : Writer) (s : Session C)
      → (launched w).0 ≡ Launch.listening port server stats handlers
      → IsUserRoute route
      → lookup route handlers ≡ some handle
      → (handle elapsed r writer s).1.world ≢ s.world
      → (env.getenv "AUTHENTICATION_HMAC_KEY" ≢ "")
        × ((u : AuthenticatedUser) × (lookup "user_id" r.vars ≡ some u.user_id)
            × Grants codec
                (record { key = env.bytes_of (env.getenv "AUTHENTICATION_HMAC_KEY"); now = pos 0 })
                r
                u)
  main-Grants w port server stats handlers route handle elapsed r writer s h user_route found
        changed =
      let noted = note (Event.request r.path) s in
      let (cfg, _, _, _, chosen, configured) = main-listening w port server stats handlers h in
      let (extractor, served) =
        configure-user_route server route handle user_route
          (ap (lookup route) (sym configured) ∙ found) in
      let (u, accepted, named, _) =
        authenticated_endpoint-owner F m schedule out server extractor r writer noted (λ same.
          changed (
            ap (λ (f : ℕ → Handler C). (f elapsed r writer s).1.world) served
            ∙ request_middleware-world server extractor elapsed r writer s
            ∙ ap (λ (t : Session C). t.world) same)) in
      let (_, without, with_key) =
        choose_server-Grants m services order hashes codec env.bytes_of
          (env.getenv "AUTHENTICATION_HMAC_KEY") cfg (everything_strategy F m schedule) server w
          chosen in
      let keyed : env.getenv "AUTHENTICATION_HMAC_KEY" ≢ "" = λ blank. without blank r u accepted in
      (keyed, (u, named, (with_key keyed r u).0 accepted))
