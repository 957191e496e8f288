-- ===== src/Server/Setup.antt =====
-- server/server.go: the constructors of a server, and the choice that main.go makes among them.
pub mod Gates
use mandible.Base.{String, List, none, some, ◌==◌, not, string_eq, if◌then◌else◌}
use mandible.Base.Int.{ℤ}
use mandible.Base.Result.{Result, ok, err, panic, Action, pure, of_result, ◌>>=◌}
use mandible.Config.{Configuration}
use mandible.Host.{Machine, Bytes}
use mandible.Process.Strategy.{ImageProcessorStrategy}
use mandible.Store.Types.{World, ImageStore}
use mandible.Store.Factory.{Services, new_image_stores}
use mandible.Server.Types.{Server}
use mandible.Server.Auth.{
  Authenticator, Codec, passthrough_authenticator, new_hmac_authenticator, get_user,
}
use mandible.Server.Stats.{Network, new_datadog_stats}

-- The `stats` of main.go: the calls are dropped, sent by a client, or made on a nil pointer.
pub data Stats (Dog : Type 0) : Type 0 where
  discarding : Stats Dog
  sending : Dog → Stats Dog
  nil_pointer : Stats Dog

-- `order` is that of the goroutines of several stores, and `hashes` what the goroutine of the names of
-- a store sends, for names of a length.
module _ {C : Type 0} (m : Machine) (services : Services C)
    (order : World C → List (ImageStore C) → List (ImageStore C))
    (hashes : ImageStore C → ℤ → World C → String) where
  unfoldable pub new_authenticated_server :
      Configuration → ImageProcessorStrategy → Authenticator → Action (World C) (Server C)
  new_authenticated_server cfg strategy auth = do
    stores ← new_image_stores m services order cfg.stores
    pure (record {
      config = cfg;
      image_store = stores;
      get_hash = hashes stores cfg.hash_length;
      processor_strategy = strategy;
      authenticator = auth;
    })

  unfoldable pub new_server : Configuration → ImageProcessorStrategy → Action (World C) (Server C)
  unfolding new_authenticated_server
  new_server cfg strategy = new_authenticated_server cfg strategy passthrough_authenticator

  -- The statistics; an error ends the program.
  unfoldable pub choose_stats : {Dog : Type 0} → Network Dog → Configuration → Result (Stats Dog)
  choose_stats net cfg =
      if cfg.datadog_enabled
      then elim (new_datadog_stats net cfg.datadog_hostname) [
        | ok (some dog) ↦ ok (sending dog)
        | ok none ↦ ok nil_pointer
        | err e ↦ err e
        | panic ↦ panic
      ]
      else ok discarding

  -- `key` is AUTHENTICATION_HMAC_KEY, and `bytes_of` its bytes.
  unfoldable pub choose_server :
      Codec
      → (String → Bytes)
      → String
      → Configuration
      → ImageProcessorStrategy
      → Action (World C) (Server C)
  choose_server codec bytes_of key cfg strategy =
      if not (key == "")
      then new_authenticated_server cfg strategy
          (get_user codec (new_hmac_authenticator (bytes_of key)))
      else new_server cfg strategy
