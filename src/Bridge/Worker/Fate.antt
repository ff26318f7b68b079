-- ===== src/Bridge/Worker/Fate.antt =====
-- What becomes of a spooled row.
use hpe_com_event_integratio.Base.{
  ℕ, ◌+◌, Bool, true, false, List, [], some, ◌≡◌, ◌⊎◌, inl, inr, refl, ap, ◌∙◌, arith, All,
  Option-cases, Bool-cases, if◌then◌else◌,
}
use hpe_com_event_integratio.Python.{
  Json, object, Exc, Result, ok, raised, attribute_error, Result-cases, is_decode_error, get_or,
}
use hpe_com_event_integratio.Core.Event.{CanonicalEvent}
use hpe_com_event_integratio.Core.Deliver.{Station, deliver_events}
use hpe_com_event_integratio.Core.Deliver.Healthy.{Answers, deliver_events-healthy}
use hpe_com_event_integratio.Core.Enrich.{enrich_events}
use hpe_com_event_integratio.Core.Normalize.{normalize}
use hpe_com_event_integratio.Bridge.Spool.{Row, claim_due, delete, reschedule, without, updated}
use hpe_com_event_integratio.Bridge.Spool.Rows.{
  has_row, has_row-without, has_row-updated, without-without_self, updated-without_self,
}
use hpe_com_event_integratio.Bridge.Worker.{
  Setup, BridgeState, retry_delay, deliver_row, read_row, attempt, settle_row, process_row,
  worker_round,
}

-- The delivery that the `try` makes for a row whose events are `events`.
abbrev pub delivery : Setup → Row → List CanonicalEvent → BridgeState → Result (Unit {0}) × Station
delivery c r events s =
    let enrichers = if r.enrich then c.enrichers else [] in
    let enriched = enrich_events events enrichers s.station.clock in
    deliver_events c.ttl enriched.0 c.adapters (record s.station { clock = enriched.1 })

-- The body does not decode, or every event in it reached every adapter.
abbrev pub MayGo : Setup → Row → BridgeState → Type 0
MayGo c r s =
    ((e : Exc) × (read_row c s.station.clock r.body ≡ raised e) × (is_decode_error e ≡ true))
    ⊎ ((events : List CanonicalEvent) × (read_row c s.station.clock r.body ≡ ok events)
        × ((delivery c r events s).0 ≡ ok tt))

module _ (c : Setup) (r : Row) (s : BridgeState) where
  unread-process :
      (e : Exc)
      → read_row c s.station.clock r.body ≡ raised e
      → process_row c r s ≡ settle_row c r (raised e) s
  unfolding process_row attempt
  unread-process e h = rw h

  failed-process :
      (events : List CanonicalEvent) (e : Exc)
      → read_row c s.station.clock r.body ≡ ok events
      → (delivery c r events s).0 ≡ raised e
      → process_row c r s
        ≡ settle_row c r (raised e) (record s { station = (delivery c r events s).1 })
  unfolding process_row attempt deliver_row
  failed-process events e h d = rw h (rw d)

  settle-deleted :
      (result : Result (Unit {0})) (t : BridgeState)
      → t.spool.rows ≡ (delete r.id s.spool).rows
      → (settle_row c r result t).spool.rows ≡ (delete r.id s.spool).rows
  unfolding settle_row delete reschedule
  settle-deleted (ok _) t h = h
  settle-deleted (raised e) t h = ground (
    arith,
    ap (without r.id) h,
    ap (updated r.id (r.attempts + 1) (t.station.clock + retry_delay c (r.attempts + 1))) h,
    without-without_self r.id s.spool.rows,
    updated-without_self r.id (r.attempts + 1) (t.station.clock + retry_delay c (r.attempts + 1))
        s.spool.rows,
  )

  done-process :
      (events : List CanonicalEvent)
      → read_row c s.station.clock r.body ≡ ok events
      → (delivery c r events s).0 ≡ ok tt
      → (process_row c r s).spool.rows ≡ (delete r.id s.spool).rows
  unfolding process_row attempt deliver_row
  done-process events h d = rw h (rw d (settle-deleted _ _ refl))

  unread-keeps :
      (id : ℕ) (e : Exc) (t : BridgeState)
      → has_row id t.spool.rows ≡ true
      → is_decode_error e ≡ false
      → has_row id (settle_row c r (raised e) t).spool.rows ≡ true
  unfolding settle_row reschedule
  unread-keeps id e t h d = rw d (rw has_row-updated h)

  dropped-settle :
      (e : Exc)
      → is_decode_error e ≡ true
      → (settle_row c r (raised e) s).spool.rows ≡ (delete r.id s.spool).rows
  unfolding settle_row
  dropped-settle e d = rw d

  delivery-not_decode :
      (events : List CanonicalEvent) (e : Exc)
      → (delivery c r events s).0 ≡ raised e
      → is_decode_error e ≡ false
  unfolding deliver_events
  delivery-not_decode events e d = ground arith

  deleted-same :
      (id : ℕ) (t : BridgeState)
      → t.spool.rows ≡ (delete r.id s.spool).rows
      → has_row id s.spool.rows ≡ true
      → has_row id t.spool.rows ≡ false
      → r.id ≡ id
  unfolding delete
  deleted-same id t e here gone =
      ground (arith, ap (has_row id) e, has_row-without id r.id s.spool.rows)

  process-gone :
      (id : ℕ)
      → has_row id s.spool.rows ≡ true
      → has_row id (process_row c r s).spool.rows ≡ false
      → (r.id ≡ id) × MayGo c r s
  process-gone id here gone = elim (Result-cases (read_row c s.station.clock r.body)) [
    | inl (events, h) ↦ elim (Result-cases (delivery c r events s).0) [
      | inl (u, d) ↦ (
        deleted-same id (process_row c r s) (done-process events h d) here gone,
        inr (events, h, d),
      )
      | inr (e, d) ↦
          let t : BridgeState = record s { station = (delivery c r events s).1 } in
          let kept = unread-keeps id e t here (delivery-not_decode events e d) in
          cc (gone, failed-process events e h d, kept)
    ]
    | inr (e, h) ↦ elim (Bool-cases (is_decode_error e)) [
      | inl d ↦ (
        deleted-same id (process_row c r s) (rw (unread-process e h) (dropped-settle e d)) here
            gone,
        inl (e, h, d),
      )
      | inr d ↦ cc (gone, unread-process e h, unread-keeps id e s here d)
    ]
  ]

-- A row that a round of the worker removes is the one that it claimed, and either its body does not
-- decode, or all of its events were delivered to all of the adapters: nothing else is lost.
pub worker_round-loses_nothing :
    (c : Setup) (s : BridgeState) (id : ℕ)
    → has_row id s.spool.rows ≡ true
    → has_row id (worker_round c s).spool.rows ≡ false
    → (r : Row) × (claim_due s.station.clock s.spool ≡ some r) × (r.id ≡ id) × MayGo c r s
unfolding worker_round
worker_round-loses_nothing c s id here gone =
    elim (Option-cases (claim_due s.station.clock s.spool)) [
      | inl idle ↦ cc (here, rw idle at gone)
      | inr (r, e) ↦ let fate = process-gone c r s id here (rw e at gone) in (r, e, fate.0, fate.1)
    ]

-- If no adapter ever raises, a round removes the row that it claims, provided that its body decodes
-- and normalises.
pub worker_round-drains :
    (c : Setup) (s : BridgeState) (r : Row) (events : List CanonicalEvent)
    → claim_due s.station.clock s.spool ≡ some r
    → read_row c s.station.clock r.body ≡ ok events
    → All Answers c.adapters
    → (worker_round c s).spool.rows ≡ (delete r.id s.spool).rows
unfolding worker_round
worker_round-drains c s r events e h healthy =
    rw e (done-process c r s events h (deliver_events-healthy c.ttl _ c.adapters _ healthy))

abbrev pub is_object : Json → Bool
is_object (object _) = true
is_object _ = false

normalize-not_object :
    (c : Setup) (now : ℕ) (j : Json)
    → is_object j ≡ false
    → normalize (c.platform now) j ≡ raised attribute_error
unfolding normalize get_or
normalize-not_object c now (object fs) h = cc
normalize-not_object c now _ h = refl

-- A claimed row whose body is JSON but no object is never dropped: each round puts it off once more,
-- with one attempt more, and calls no adapter.
pub worker_round-keeps_non_object :
    (c : Setup) (s : BridgeState) (r : Row) (j : Json)
    → claim_due s.station.clock s.spool ≡ some r
    → c.loads r.body ≡ ok j
    → is_object j ≡ false
    → worker_round c s ≡ record s {
      spool =
          reschedule r.id
            (r.attempts + 1)
            (s.station.clock + retry_delay c (r.attempts + 1))
            s.spool;
    }
unfolding worker_round
worker_round-keeps_non_object c s r j e h n = rw e (
    unread-process c r s attribute_error
      (unfold read_row in rw h (normalize-not_object c s.station.clock j n))
    ∙ (unfold settle_row in refl))
