-- ===== src/Server/Main.antt =====
-- main.go: from the environment to a server that listens.
pub mod Users
pub mod Startup
use mandible.Base.{ℕ, String, ◌<>◌, List, map, Option, none, some}
use mandible.Base.Int.{ℤ}
use mandible.Base.Text.{show_int}
use mandible.Base.Result.{Result, ok, err, panic, ⊤}
use mandible.Config.{Configuration, new_configuration}
use mandible.Host.{Machine, Bytes}
use mandible.Upload.Thumb.{Floats}
use mandible.Process.Strategy.{Schedule, everything_strategy}
use mandible.Store.Types.{World, ImageStore}
use mandible.Store.Factory.{Services}
use mandible.Server.Types.{Outside, Server}
use mandible.Server.Auth.{Codec}
use mandible.Server.Stats.{Network}
use mandible.Server.Routes.{Handler, routes, request_middleware}
use mandible.Server.Setup.{Stats, choose_stats, choose_server}

-- How the program goes on: it ends with this code, crashes, or serves the routes on this port.
pub data Launch (C Dog : Type 0) : Type 0 where
  exited : ℕ → Launch C Dog
  crashed : Launch C Dog
  listening : String → Server C → Stats Dog → List (String × (ℕ → Handler C)) → Launch C Dog

-- `stats.LogStartup()`: the client's own error is ignored; on a nil pointer the client is not found.
abbrev pub log_startup : {Dog : Type 0} → Stats Dog → Result ⊤
log_startup Stats.discarding = ok tt
log_startup (Stats.sending _) = ok tt
log_startup Stats.nil_pointer = panic

-- What main takes from outside, beyond the libraries that its parts take: the environment, the decoder
-- of the configuration, and the bytes of a text.
pub record Environment : Type 0 where
  pub getenv : String → String
  pub decode : Bytes → Configuration
  pub bytes_of : String → Bytes

module _ {C : Type 0} (F : Floats) (m : Machine) (schedule : Schedule) (out : Outside C) where
  -- `Configure`: each route by the handler that its middleware wraps, for the time that the call takes.
  unfoldable pub configure : Server C → List (String × (ℕ → Handler C))
  unfolding routes
  configure server =
      map
        (λ (path, handler).
          (path, λ elapsed. request_middleware F m schedule out server elapsed handler))
        (routes F m schedule out server)

  -- The last part, with a server.
  unfoldable pub serve : {Dog : Type 0} → Configuration → Stats Dog → Server C → Launch C Dog
  unfolding configure
  serve cfg stats server = elim (log_startup stats) [
    | ok _ ↦ Launch.listening (":" <> show_int cfg.port) server stats (configure server)
    | err _ ↦ Launch.crashed
    | panic ↦ Launch.crashed
  ]

module _ {C Dog : Type 0} (F : Floats) (m : Machine) (schedule : Schedule) (out : Outside C)
    (services : Services C) (order : World C → List (ImageStore C) → List (ImageStore C))
    (hashes : ImageStore C → ℤ → World C → String) (codec : Codec) (net : Network Dog)
    (env : Environment) where
  -- `err` is a `log.Fatal` or an `os.Exit`; the one of the configuration has the code -1.
  unfoldable pub main : World C → Launch C Dog × World C
  unfolding new_configuration choose_stats choose_server everything_strategy serve
  main w =
      let (config, h) = new_configuration env.decode (env.getenv "MANDIBLE_CONF") w.host in
      elim config [
        | err _ ↦ (Launch.exited 255, w)
        | panic ↦ (Launch.crashed, w)
        | ok cfg ↦ elim (choose_stats m services order hashes net cfg) [
          | err _ ↦ (Launch.exited 1, w)
          | panic ↦ (Launch.crashed, w)
          | ok stats ↦
              let (r, w') =
                choose_server m services order hashes codec env.bytes_of
                  (env.getenv "AUTHENTICATION_HMAC_KEY") cfg (everything_strategy F m schedule) w in
              elim r [
                | err _ ↦ (Launch.exited 1, w')
                | panic ↦ (Launch.crashed, w')
                | ok server ↦ (serve F m schedule out cfg stats server, w')
              ]
        ]
      ]
