-- ===== src/Server/Response.antt =====
-- server/server.go: how a response is written.
pub mod Headers
use mandible.Base.{String, Bool, leb, ◌==◌, nat_eq, if◌then◌else◌}
use mandible.Host.{Bytes}
use mandible.Server.Types.{ServerResponse, Session, note}
use mandible.Server.Http.{ResponseWriter, write_header, set_header, write}
use mandible.Server.Stats.{Event}

-- A part of a body: the JSON of a response, with its computed `success`, a page or a file.
pub data Part : Type 0 where
  json_of : ServerResponse → Bool → Part
  page : String → Part
  file : Bytes → Part

abbrev pub Writer : Type 0
Writer = ResponseWriter Part

-- `ServerResponse.json`
unfoldable pub json : ServerResponse → Part
json resp = json_of resp (resp.status == 200)

module _ {C : Type 0} where
  -- `ServerResponse.Write`
  unfoldable pub write_response : ServerResponse → Writer → Session C → Writer × Session C
  unfolding json write_header write
  write_response resp w s = (
    write (json resp) (set_header "Content-Type" "application/json" (write_header resp.status w)),
    if leb 400 resp.status then note (Event.error resp.status) s else s,
  )
