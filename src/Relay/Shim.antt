-- ===== src/Relay/Shim.antt =====
-- `main` of com-event-relay/shim/worker.py: one message at a time. The queue's SDK is the parameter
-- `Broker`: what each terminal action does.
pub mod Acks
use hpe_com_event_integratio.Base.{
  ℕ, String, Bool, true, false, List, [], ◌∷◌, ◌++◌, Option, none, some, if◌then◌else◌,
}
use hpe_com_event_integratio.Python.{Json, Exc, Result, ok, raised, is_decode_error}
use hpe_com_event_integratio.Core.Event.{CanonicalEvent}
use hpe_com_event_integratio.Core.Deliver.{Station, deliver_events}
use hpe_com_event_integratio.Core.Enrich.{enrich_events}
use hpe_com_event_integratio.Core.Normalize.{normalize}
use hpe_com_event_integratio.Bridge.Worker.{Setup}

pub record ReceivedMessage : Type 0 where
  pub body : List ℕ
  pub properties : List (String × String)
  pub handle : ℕ

pub data Ack : Type 0 where
  complete abandon dead_letter : Ack

-- Whether the call of a terminal action raises.
abbrev pub Broker : Type 0
Broker = Ack → ReceivedMessage → Result (Unit {0})

-- The de-duplication and the targets, and the terminal actions called so far, the last one first.
pub record ShimState : Type 0 where
  pub station : Station
  pub acks : List (ℕ × Ack)

-- The delivery that the `try` makes.
unfoldable pub shim_delivery : Setup → List CanonicalEvent → Station → Result (Unit {0}) × Station
shim_delivery c events station =
    let (enriched, later) = enrich_events events c.enrichers station.clock in
    deliver_events c.ttl enriched c.adapters (record station { clock = later })

-- The rest of the loop, unless an exception has escaped.
abbrev and_then :
    Result (Unit {0}) × ShimState
    → (ShimState → Result (Unit {0}) × ShimState)
    → Result (Unit {0}) × ShimState
and_then (ok _, t) rest = rest t
and_then (raised e, t) rest = (raised e, t)

module _ (broker : Broker) where
  -- A call of a terminal action.
  abbrev pub acknowledge : Ack → ReceivedMessage → ShimState → Result (Unit {0}) × ShimState
  acknowledge ack msg s = (broker ack msg, record s { acks = (msg.handle, ack) ∷ s.acks })

  -- `except Exception: consumer.abandon(msg)`
  unfoldable pub or_abandon :
      ReceivedMessage → Result (Unit {0}) × ShimState → Result (Unit {0}) × ShimState
  or_abandon msg (ok _, s) = (ok tt, s)
  or_abandon msg (raised e, s) = acknowledge abandon msg s

  -- The end of the `try`: complete what was delivered.
  unfoldable pub complete_if :
      ReceivedMessage → Result (Unit {0}) × Station → ShimState → Result (Unit {0}) × ShimState
  complete_if msg (raised e, station) s = (raised e, record s { station = station })
  complete_if msg (ok _, station) s = acknowledge complete msg (record s { station = station })

  unfoldable pub try_message :
      Setup
      → ReceivedMessage
      → Result (List CanonicalEvent)
      → ShimState
      → Result (Unit {0}) × ShimState
  try_message c msg (raised e) s = (raised e, s)
  try_message c msg (ok events) s = complete_if msg (shim_delivery c events s.station) s

  -- After `json.loads`; an exception that is no decode error ends the program.
  unfoldable pub parsed_message :
      Setup → ReceivedMessage → Result Json → ShimState → Result (Unit {0}) × ShimState
  parsed_message c msg (raised e) s =
      if is_decode_error e then acknowledge dead_letter msg s else (raised e, s)
  parsed_message c msg (ok payload) s =
      or_abandon msg (try_message c msg (normalize (c.platform s.station.clock) payload) s)

  unfoldable pub handle_message :
      Setup → ReceivedMessage → ShimState → Result (Unit {0}) × ShimState
  handle_message c msg s = parsed_message c msg (c.loads msg.body) s

  -- `for msg in consumer.receive()`, until an exception escapes.
  unfoldable pub drain : Setup → List ReceivedMessage → ShimState → Result (Unit {0}) × ShimState
  drain c [] s = (ok tt, s)
  drain c (msg ∷ msgs) s = and_then (handle_message c msg s) (drain c msgs)
