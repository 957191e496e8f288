-- ===== src/Server/Types.antt =====
-- server/server.go: the server, the requests that it answers and the state that they share.
use mandible.Base.{ℕ, Bool, String, List, ◌∷◌, Option, none, some}
use mandible.Base.Int.{ℤ}
use mandible.Base.Dict.{Dict, insert}
use mandible.Base.Result.{Error, Result, ok, err, panic, Action}
use mandible.Config.{Configuration}
use mandible.Host.{Host, Disk}
use mandible.Process.Strategy.{ImageProcessorStrategy}
use mandible.Store.Types.{Reader, World, ImageStore}
use mandible.Server.Auth.{Authenticator}
use mandible.Server.Http.{HttpResponse}
use mandible.Server.Stats.{Event}

pub record ImageResponse : Type 0 where
  pub link : String
  pub mime : String
  pub name : String
  pub hash : String
  pub size : ℤ
  pub width : ℤ
  pub height : ℤ
  pub ocr_text : String
  pub thumbs : Dict String
  pub user_id : String

pub record OcrResponse : Type 0 where
  pub hash : String
  pub ocr_text : String

-- `ServerResponse.Data`
pub data Payload : Type 0 where
  empty : Payload
  image : ImageResponse → Payload
  ocr : OcrResponse → Payload

pub record ServerResponse : Type 0 where
  pub error : String
  pub payload : Payload
  pub status : ℕ

abbrev pub error_response : ℕ → String → ServerResponse
error_response status message = record { error = message; payload = empty; status = status }

-- A `ThumbRequest` of `parseThumbs`.
pub record ThumbRequest : Type 0 where
  pub width : ℤ
  pub max_width : ℤ
  pub height : ℤ
  pub max_height : ℤ
  pub shape : String
  pub crop_gravity : String
  pub crop_height : ℤ
  pub crop_width : ℤ
  pub quality : ℤ
  pub crop_ratio : String
  pub desired_format : String
  pub no_store : Bool

-- What the handlers take from outside: `ioutil.TempFile`, encoding/json at the map of thumbnail
-- requests (in the order in which the map is walked), the base64 decoder, `http.NewRequest` and the
-- client's `Do` (user agent, then address).
pub record Outside (C : Type 0) : Type 0 where
  pub temp_file : Disk → Result String
  pub unmarshal_thumbs : String → Result (List (String × ThumbRequest))
  pub base64_reader : String → Reader
  pub new_request : String → Option Error
  pub fetch : String → String → World C → Result HttpResponse

-- `get_hash` is what `HashGenerator.Get` gives when it is called in a world.
pub record Server (C : Type 0) : Type 0 where
  pub config : Configuration
  pub image_store : ImageStore C
  pub get_hash : World C → String
  pub processor_strategy : ImageProcessorStrategy
  pub authenticator : Authenticator

-- What a request finds and leaves behind; `events` are the calls of the statistics, the last first.
pub record Session (C : Type 0) : Type 0 where
  pub world : World C
  pub events : List Event

module _ {C : Type 0} where
  abbrev pub host_of : Session C → Host
  host_of s = s.world.host

  abbrev pub set_host : Host → Session C → Session C
  set_host h s = record s { world = record s.world { host = h } }

  abbrev pub note : Event → Session C → Session C
  note e s = record s { events = e ∷ s.events }

  abbrev pub on_host : {A : Type 0} → Action Host A → Action (Session C) A
  on_host f s = let (r, h) = f (host_of s) in (r, set_host h s)

-- `saveToTmp`: what was read is in the file, also where the reader ends with an error.
unfoldable pub save_to_tmp : {C : Type 0} → Outside C → Reader → Action Host String
save_to_tmp out r h = elim (out.temp_file h.disk) [
  | err e ↦ (err e, h)
  | panic ↦ (panic, h)
  | ok name ↦ (
    elim r.fault [ none ↦ ok name | some e ↦ err e ],
    record h { disk = insert name r.content h.disk },
  )
]
