-- ===== src/Bridge/Worker.antt =====
-- `SpoolWorker.run` of com-event-bridge/bridge/core/spool.py, one round of its loop at a time.
-- `json.loads` of the decoded body is the parameter `loads`.
pub mod Fate
pub mod Backoff
use hpe_com_event_integratio.Base.{
  ℕ, ◌+◌, ◌-◌, ◌*◌, ◌^◌, min, String, Bool, true, false, List, [], ◌∷◌, Option, none, some,
  if◌then◌else◌,
}
use hpe_com_event_integratio.Python.{
  Json, Exc, Result, ok, raised, index_error, is_decode_error, ◌>>=◌,
}
use hpe_com_event_integratio.Core.Event.{CanonicalEvent}
use hpe_com_event_integratio.Core.Deliver.{TargetAdapter, Station, deliver_events}
use hpe_com_event_integratio.Core.Enrich.{Enricher, enrich_events}
use hpe_com_event_integratio.Core.Normalize.{normalize}
use hpe_com_event_integratio.Core.Normalize.Environment.{Platform}
use hpe_com_event_integratio.Bridge.Spool.{Bytes, Row, SpoolStore, claim_due, delete, reschedule}

-- The constants and the collaborators of the worker. The platform may change with the clock.
pub record Setup : Type 0 where
  pub loads : Bytes → Result Json
  pub platform : ℕ → Platform
  pub adapters : List TargetAdapter
  pub enrichers : List Enricher
  pub ttl : ℕ
  pub retry_seconds : ℕ
  pub retry_cap : ℕ
  pub poll_seconds : ℕ

pub record BridgeState : Type 0 where
  pub spool : SpoolStore
  pub station : Station

-- `min(SPOOL_RETRY_SECONDS * (2 ** (attempts - 1)), SPOOL_RETRY_CAP)`
unfoldable pub retry_delay : Setup → ℕ → ℕ
retry_delay c attempts = min (c.retry_seconds * 2 ^ (attempts - 1)) c.retry_cap

-- `events[0]` of the log line after the deletion raises if there is no event.
abbrev name_first : List CanonicalEvent → Result (Unit {0})
name_first [] = raised index_error
name_first (e ∷ es) = ok tt

abbrev after_delivery :
    ℕ → List CanonicalEvent → Result (Unit {0}) → BridgeState → Result (Unit {0}) × BridgeState
after_delivery id events (raised e) s = (raised e, s)
after_delivery id events (ok _) s = (name_first events, record s { spool = delete id s.spool })

-- The lines of the `try` from the enrichment on. A row of the overflow lane is not enriched.
unfoldable pub deliver_row :
    Setup → Row → List CanonicalEvent → BridgeState → Result (Unit {0}) × BridgeState
deliver_row c r events s =
    let enrichers = if r.enrich then c.enrichers else [] in
    let (enriched, later) = enrich_events events enrichers s.station.clock in
    let ready = record s.station { clock = later } in
    let (result, station) = deliver_events c.ttl enriched c.adapters ready in
    after_delivery r.id enriched result (record s { station = station })

-- `normalize(json.loads(body.decode("utf-8")))`
unfoldable pub read_row : Setup → ℕ → Bytes → Result (List CanonicalEvent)
read_row c now body = do payload ← c.loads body; normalize (c.platform now) payload

attempt_events :
    Setup → Row → Result (List CanonicalEvent) → BridgeState → Result (Unit {0}) × BridgeState
attempt_events c r (ok events) s = deliver_row c r events s
attempt_events c r (raised e) s = (raised e, s)

-- The whole `try`.
unfoldable pub attempt : Setup → Row → BridgeState → Result (Unit {0}) × BridgeState
unfolding attempt_events
attempt c r s = attempt_events c r (read_row c s.station.clock r.body) s

-- The two handlers: a message that does not parse is dropped, any other failure is rescheduled.
unfoldable pub settle_row : Setup → Row → Result (Unit {0}) → BridgeState → BridgeState
settle_row c r (ok _) s = s
settle_row c r (raised e) s =
    let attempts = r.attempts + 1 in
    if is_decode_error e then record s { spool = delete r.id s.spool } else record s {
      spool = reschedule r.id attempts (s.station.clock + retry_delay c attempts) s.spool;
    }

unfoldable pub process_row : Setup → Row → BridgeState → BridgeState
process_row c r s = let (result, t) = attempt c r s in settle_row c r result t

process_claim : Setup → Option Row → BridgeState → BridgeState
process_claim c none s = record s {
  station = record s.station { clock = s.station.clock + c.poll_seconds };
}
process_claim c (some r) s = process_row c r s

-- One round of `while not self._stop.is_set()`.
unfoldable pub worker_round : Setup → BridgeState → BridgeState
unfolding process_claim
worker_round c s = process_claim c (claim_due s.station.clock s.spool) s
