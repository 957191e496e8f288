-- ===== src/Server/Response/Headers.antt =====
-- What `ServerResponse.Write` of server/server.go sends.
use mandible.Base.{◌≡◌, [], ◌∷◌, some, arith, ◌==◌, nat_eq, leb, if◌then◌else◌}
use mandible.Server.Types.{ServerResponse, Session}
use mandible.Server.Http.{fresh_writer}
use mandible.Server.Stats.{Event}
use mandible.Server.Response.{json_of, write_response}

-- A response is sent with its status and its JSON, in which `success` says whether the status is 200,
-- but with no header at all: `Content-Type` is set only after the headers have been sent. The error is
-- reported to the statistics exactly if the status is 400 or more, and the world is left alone.
pub write_response_fresh :
    {C : Type 0} (resp : ServerResponse) (s : Session C)
    → let (w, s') = write_response resp fresh_writer s in
      (w.sent ≡ some (resp.status, []))
      × (w.body ≡ json_of resp (resp.status == 200) ∷ [])
      × (s'.world ≡ s.world)
      × (s'.events ≡ (if leb 400 resp.status then Event.error resp.status ∷ s.events else s.events))
unfolding write_response
write_response_fresh resp s = ground arith
