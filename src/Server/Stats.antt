-- ===== src/Server/Stats.antt =====
-- server/stats.go
pub mod Nil
use mandible.Base.{ℕ, String, ◌<>◌, List, [], ◌∷◌, Option, none, some}
use mandible.Base.Int.{pos}
use mandible.Base.Text.{show_int}
use mandible.Base.Result.{Result, ok}

-- A call of the interface `RuntimeStats`.
pub data Event : Type 0 where
  startup : Event
  request : String → Event
  response_time : ℕ → String → Event
  thumbnail : String → Event
  upload : String → Event
  error : ℕ → Event

-- What godspeed sends: a counter to add one to, or a time, each with its tags.
pub data Metric : Type 0 where
  incr : String → List String → Metric
  timing : String → ℕ → List String → Metric

-- `DiscardStats`
abbrev pub discard : Event → List Metric
discard _ = []

-- `DatadogStats`
unfoldable pub datadog : Event → List Metric
datadog startup = incr "mandible.startup" [] ∷ []
datadog (request url) = incr "mandible.request" (("url:" <> url) ∷ []) ∷ []
datadog (response_time elapsed url) =
    timing "mandible.responseTime" elapsed (("url:" <> url) ∷ []) ∷ []
datadog (thumbnail name) = incr "mandible.thumbnail" (("size:" <> name) ∷ []) ∷ []
datadog (upload source) = incr "mandible.upload" (("source:" <> source) ∷ []) ∷ []
datadog (error code) = incr "mandible.error" (("code:" <> show_int (pos code)) ∷ []) ∷ []

-- `net.ParseIP`, `net.LookupIP` and `godspeed.New`; `Dog` is the client.
pub record Network (Dog : Type 0) : Type 0 where
  pub parse_ip : String → Option String
  pub lookup_ip : String → List String
  pub new_godspeed : String → Result Dog

-- The address of a host: the host itself if it is one, or else the first that is found for it.
unfoldable pub resolve : {Dog : Type 0} → Network Dog → String → Option String
resolve net host = elim (net.parse_ip host) [
  | some ip ↦ some ip
  | none ↦ elim (net.lookup_ip host) [ [] ↦ none | ip ∷ _ ↦ some ip ]
]

-- `none` is the nil pointer, which comes with the error nil where no address is found or the client
-- cannot be made: the error of the last case is that of an inner scope, and is lost.
unfoldable pub new_datadog_stats : {Dog : Type 0} → Network Dog → String → Result (Option Dog)
unfolding resolve
new_datadog_stats net host = elim (resolve net host) [
  | none ↦ ok none
  | some ip ↦ elim (net.new_godspeed ip) [ ok dog ↦ ok (some dog) | _ ↦ ok none ]
]
