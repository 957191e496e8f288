-- ===== src/Server/Setup/Gates.antt =====
-- Who is let in by the server that main.go starts.
use mathlib.Core.Path.{subst, sym}
use mandible.Base.{
  String, ◌≡◌, ◌≢◌, ◌↔◌, inl, inr, List, arith, All, ◌==◌, string_eq, eq_iff, Bool-cases,
}
use mandible.Base.Int.{ℤ, pos}
use mandible.Base.Result.{ok, Result-cases}
use mandible.Config.{Configuration}
use mandible.Host.{Machine, Bytes}
use mandible.Process.Strategy.{ImageProcessorStrategy}
use mandible.Store.Types.{World, ImageStore}
use mandible.Store.Factory.{Services, new_image_stores}
use mandible.Store.Factory.Kinds.{IsSupported, new_image_stores-IsSupported}
use mandible.Server.Types.{Server}
use mandible.Server.Http.{Request}
use mandible.Server.Auth.{
  Authenticator, AuthenticatedUser, Codec, passthrough_authenticator, new_hmac_authenticator,
  get_user,
}
use mandible.Server.Auth.Grants.{Grants, get_user_iff}
use mandible.Server.Setup.{new_authenticated_server, new_server, choose_server}

module _ {C : Type 0} (m : Machine) (services : Services C)
    (order : World C → List (ImageStore C) → List (ImageStore C))
    (hashes : ImageStore C → ℤ → World C → String) where
  new_authenticated_server-ok :
      (cfg : Configuration) (strategy : ImageProcessorStrategy) (auth : Authenticator)
      (server : Server C) (w : World C)
      → (new_authenticated_server m services order hashes cfg strategy auth w).0 ≡ ok server
      → (server.authenticator ≡ auth) × All IsSupported cfg.stores
  unfolding new_authenticated_server
  new_authenticated_server-ok cfg strategy auth server w h =
      elim (Result-cases (new_image_stores m services order cfg.stores w).0) [
        | inl (store, e) ↦
            (ground arith, (new_image_stores-IsSupported m services order cfg.stores store w e).0)
        | inr e ↦ absurd (ground arith)
      ]

  passthrough_authenticator-err :
      (req : Request) (u : AuthenticatedUser) → passthrough_authenticator req ≢ ok u
  unfolding passthrough_authenticator
  passthrough_authenticator-err req u e = cc

  -- The server that is started has only stores of the types that there are. Without a key it
  -- accepts no request as a user's; with a key it accepts those that rest on a grant under that key,
  -- the time being left at the zero time.
  pub choose_server-Grants :
      (codec : Codec) (bytes_of : String → Bytes) (key : String) (cfg : Configuration)
      (strategy : ImageProcessorStrategy) (server : Server C) (w : World C)
      → (choose_server m services order hashes codec bytes_of key cfg strategy w).0 ≡ ok server
      → All IsSupported cfg.stores
        × (key ≡ "" → (req : Request) (u : AuthenticatedUser) → server.authenticator req ≢ ok u)
        × (key ≢ ""
            → (req : Request) (u : AuthenticatedUser)
            → (server.authenticator req ≡ ok u)
              ↔ Grants codec (record { key = bytes_of key; now = pos 0 }) req u)
  unfolding choose_server new_server new_hmac_authenticator
  choose_server-Grants codec bytes_of key cfg strategy server w h = elim (Bool-cases (key == "")) [
    | inl y ↦
        let (same, supported) =
          new_authenticated_server-ok cfg strategy passthrough_authenticator server w (rw y at h) in
        (
          supported,
          λ blank req u.
              subst (λ (a : Authenticator). a req ≢ ok u) (sym same)
                (passthrough_authenticator-err req u),
          λ filled. absurd (filled ((eq_iff key "").0 y)),
        )
    | inr n ↦
        let auth = new_hmac_authenticator (bytes_of key) in
        let (same, supported) =
          new_authenticated_server-ok cfg strategy (get_user codec auth) server w (rw n at h) in
        (
          supported,
          λ blank. absurd (ground (arith, eq_iff key "")),
          λ filled req u.
              subst (λ (a : Authenticator). (a req ≡ ok u) ↔ Grants codec auth req u) (sym same)
                (get_user_iff codec auth req u),
        )
  ]
