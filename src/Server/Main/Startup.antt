-- ===== src/Server/Main/Startup.antt =====
-- How main.go starts where the statistics cannot be sent.
use mandible.Base.{String, ◌≡◌, ◌⊎◌, inl, inr, true, List, none, some, arith, ap}
use mandible.Base.Int.{ℤ}
use mandible.Base.Result.{Error, Result, ok, err}
use mandible.Config.{Configuration, new_configuration}
use mandible.Host.{Machine}
use mandible.Upload.Thumb.{Floats}
use mandible.Process.Strategy.{Schedule, everything_strategy}
use mandible.Store.Types.{World, ImageStore}
use mandible.Store.Factory.{Services}
use mandible.Server.Types.{Outside, Server}
use mandible.Server.Auth.{Codec}
use mandible.Server.Stats.{Network, resolve, new_datadog_stats}
use mandible.Server.Stats.Nil.{new_datadog_stats_nil}
use mandible.Server.Setup.{Stats, choose_stats, choose_server}
use mandible.Server.Main.{Launch, Environment, serve, main}

module _ {C Dog : Type 0} (F : Floats) (m : Machine) (schedule : Schedule) (out : Outside C)
    (services : Services C) (order : World C → List (ImageStore C) → List (ImageStore C))
    (hashes : ImageStore C → ℤ → World C → String) (codec : Codec) (net : Network Dog)
    (env : Environment) where
  choose_stats_nil :
      (cfg : Configuration)
      → cfg.datadog_enabled ≡ true
      → new_datadog_stats net cfg.datadog_hostname ≡ ok none
      → choose_stats m services order hashes net cfg ≡ ok Stats.nil_pointer
  unfolding choose_stats
  choose_stats_nil cfg e f = ground arith

  -- Where the statistics are to be sent and the host of Datadog has no address, or no client can be
  -- made for it, main does not end with its message on the host: it makes the server, and then crashes
  -- on the nil pointer of the statistics, before it listens.
  pub main-crashed :
      (w w' : World C) (cfg : Configuration) (server : Server C)
      → (new_configuration env.decode (env.getenv "MANDIBLE_CONF") w.host).0 ≡ ok cfg
      → cfg.datadog_enabled ≡ true
      → (resolve net cfg.datadog_hostname ≡ none)
        ⊎ ((ip : String) × (e : Error) × (resolve net cfg.datadog_hostname ≡ some ip)
            × (net.new_godspeed ip ≡ err e))
      → choose_server m services order hashes codec env.bytes_of
          (env.getenv "AUTHENTICATION_HMAC_KEY")
          cfg
          (everything_strategy F m schedule)
          w
        ≡ (ok server, w')
      → main F m schedule out services order hashes codec net env w ≡ (Launch.crashed, w')
  unfolding main serve
  main-crashed w w' cfg server read enabled failed chosen =
      let (_, unresolved, refused) = new_datadog_stats_nil net cfg.datadog_hostname in
      let nil =
        choose_stats_nil cfg enabled
          (elim failed [ inl e ↦ unresolved e | inr (ip, e, f, g) ↦ refused ip e f g ]) in
      rw (main, read, nil, chosen)
        (ap (λ (r : Result (Server C) × World C). (Launch.crashed, r.1)) chosen)
