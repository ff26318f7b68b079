-- ===== src/Bridge/App.antt =====
-- The handlers of com-event-bridge/bridge/app.py.
pub mod Webhook
use hpe_com_event_integratio.Base.{
  ℕ, String, Bool, true, false, List, [], ◌∷◌, Option, none, some, not, ◌||◌, ◌==◌, truthy, length,
  ltb, if◌then◌else◌,
}
use hpe_com_event_integratio.Base.Dict.{lookup}
use hpe_com_event_integratio.Base.Text.{decimal}
use hpe_com_event_integratio.Python.{Json, Exc, Result, ok, raised, is_decode_error}
use hpe_com_event_integratio.Http.{
  Request, Response, status_only, Gate, answered, admitted, crashed, compare_digest, is_digit,
  to_int,
}
use hpe_com_event_integratio.Core.Event.{CanonicalEvent}
use hpe_com_event_integratio.Core.Deliver.{Station, deliver_events}
use hpe_com_event_integratio.Core.Normalize.{normalize}
use hpe_com_event_integratio.Bridge.Spool.{
  Bytes, SpoolStore, Stored, stored, spool_full, put, put_overflow, pending,
}
use hpe_com_event_integratio.Bridge.Worker.{Setup, BridgeState}

-- DELIVERY_MODE
pub data Mode : Type 0 where
  spool sync : Mode

pub record Config : Type 0 where
  pub com_secret : String
  pub secret_header : String
  pub max_body_bytes : ℕ
  pub mode : Mode

abbrev pub challenge_header : String
challenge_header = "x-compute-ops-mgmt-verification-challenge"

-- 3) the size of the body itself
unfoldable pub body_gate : Config → Request → Gate
body_gate c req =
    if ltb c.max_body_bytes (length req.body) then answered (status_only 413) else admitted req.body

-- 3) the size that the header announces
unfoldable pub announced_gate : Config → Request → Result ℕ → Gate
announced_gate c req (raised e) = crashed
announced_gate c req (ok n) =
    if ltb c.max_body_bytes n then answered (status_only 413) else body_gate c req

unfoldable pub length_gate : Config → Request → Option String → Gate
length_gate c req none = body_gate c req
length_gate c req (some s) = if is_digit s then announced_gate c req (to_int s) else body_gate c req

-- 2) the shared secret
unfoldable pub digest_gate : Config → Request → Result Bool → Gate
digest_gate c req (raised e) = crashed
digest_gate c req (ok false) = answered (status_only 401)
digest_gate c req (ok true) = length_gate c req (lookup "content-length" req.headers)

unfoldable pub secret_gate : Config → Request → Option String → Gate
secret_gate c req none = answered (status_only 401)
secret_gate c req (some received) =
    if truthy received
    then digest_gate c req (compare_digest received c.com_secret)
    else answered (status_only 401)

-- 1) the handshake
unfoldable pub handshake_gate : Config → Request → Option String → Gate
handshake_gate c req (some challenge) =
    answered (record { status = 200; event_id = none; verification = some challenge })
handshake_gate c req none =
    if req.is_post
    then secret_gate c req (lookup c.secret_header req.headers)
    else answered (status_only 400)

-- `webhook`, up to the body.
unfoldable pub gate : Config → Request → Gate
gate c req = handshake_gate c req (lookup challenge_header req.headers)

-- `request.headers.get("x-compute-ops-mgmt-event-type", "unknown")`
abbrev or_unknown : Option String → String
or_unknown none = "unknown"
or_unknown (some s) = s

abbrev pub event_type : Request → String
event_type req = or_unknown (lookup "x-compute-ops-mgmt-event-type" req.headers)

-- Status 202 with the id of the row.
abbrev pub accepted : ℕ → Response
accepted id = record { status = 202; event_id = some (decimal id); verification = none }

unfoldable pub overflow_reply : Stored × SpoolStore → BridgeState → Response × BridgeState
overflow_reply (spool_full, store) s = (status_only 503, s)
overflow_reply (stored id, store) s = (accepted id, record s { spool = store })

unfoldable pub spool_reply :
    Stored × SpoolStore → Bytes → List (String × String) → BridgeState → Response × BridgeState
spool_reply (stored id, store) body properties s = (accepted id, record s { spool = store })
spool_reply (spool_full, store) body properties s =
    overflow_reply (put_overflow s.station.clock body properties s.spool) s

unfoldable pub accept_to_spool : Bytes → String → BridgeState → Response × BridgeState
accept_to_spool body type s =
    let properties = ("event_type", type) ∷ ("source", "com-event-bridge") ∷ [] in
    spool_reply (put s.station.clock body properties s.spool) body properties s

abbrev first_id : List CanonicalEvent → String
first_id [] = "unknown"
first_id (e ∷ es) = e.event_id

unfoldable pub sync_reply :
    Result (Unit {0}) × Station → List CanonicalEvent → BridgeState → Response × BridgeState
sync_reply (raised e, station) events s = (status_only 503, record s { station = station })
sync_reply (ok _, station) events s = (
  record { status = 202; event_id = some (first_id events); verification = none },
  record s { station = station },
)

-- `normalize` stands outside the `try`.
unfoldable pub forward_events :
    Setup → Result (List CanonicalEvent) → BridgeState → Response × BridgeState
forward_events setup (raised e) s = (status_only 500, s)
forward_events setup (ok events) s =
    sync_reply (deliver_events setup.ttl events setup.adapters s.station) events s

unfoldable pub forward_sync : Setup → Json → BridgeState → Response × BridgeState
forward_sync setup payload s =
    forward_events setup (normalize (setup.platform s.station.clock) payload) s

-- 5) by the mode
unfoldable pub deliver_by_mode :
    Mode → Setup → Json → Request → Bytes → BridgeState → Response × BridgeState
deliver_by_mode spool setup payload req body s = accept_to_spool body (event_type req) s
deliver_by_mode sync setup payload req body s = forward_sync setup payload s

-- 4) the body must parse
unfoldable pub parsed_reply :
    Config → Setup → Request → Bytes → Result Json → BridgeState → Response × BridgeState
parsed_reply c setup req body (raised e) s =
    (status_only (if is_decode_error e then 400 else 500), s)
parsed_reply c setup req body (ok payload) s = deliver_by_mode c.mode setup payload req body s

unfoldable pub gated_reply : Config → Setup → Request → Gate → BridgeState → Response × BridgeState
gated_reply c setup req (answered r) s = (r, s)
gated_reply c setup req (admitted body) s = parsed_reply c setup req body (setup.loads body) s

unfoldable pub webhook : Config → Setup → Request → BridgeState → Response × BridgeState
webhook c setup req s = gated_reply c setup req (gate c req) s

-- `readiness`: in spool mode the worker must be alive.
unfoldable pub readiness : Mode → Bool → ℕ
readiness spool alive = if alive then 200 else 503
readiness sync alive = 200
