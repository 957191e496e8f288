-- ===== src/Server/Stats/Nil.antt =====
-- The errors of `NewDatadogStats` of server/stats.go.
use mandible.Base.{String, ◌≡◌, ◌≢◌, none, some, arith}
use mandible.Base.Result.{Error, ok, err}
use mandible.Server.Stats.{Network, resolve, new_datadog_stats}

-- No failure is reported: where no address is found for the host, or the client cannot be made, the
-- result is a nil pointer with the error nil.
pub new_datadog_stats_nil :
    {Dog : Type 0} (net : Network Dog) (host : String)
    → ((e : Error) → new_datadog_stats net host ≢ err e)
      × (resolve net host ≡ none → new_datadog_stats net host ≡ ok none)
      × ((ip : String) (e : Error)
          → resolve net host ≡ some ip
          → net.new_godspeed ip ≡ err e
          → new_datadog_stats net host ≡ ok none)
unfolding new_datadog_stats
new_datadog_stats_nil net host = (λ e h. ground arith, λ h. ground arith, λ ip e h k. ground arith)
