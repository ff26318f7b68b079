-- ===== src/Relay/Shim/Acks.antt =====
-- How a message ends.
use hpe_com_event_integratio.Base.{
  true, false, List, ◌∷◌, ◌≡◌, ◌≢◌, ◌⊎◌, inl, inr, refl, ap, sym, ◌∙◌, Bool-cases,
}
use hpe_com_event_integratio.Python.{Json, Exc, Result, ok, raised, is_decode_error}
use hpe_com_event_integratio.Core.Event.{CanonicalEvent}
use hpe_com_event_integratio.Core.Deliver.{Station}
use hpe_com_event_integratio.Core.Normalize.{normalize}
use hpe_com_event_integratio.Bridge.Worker.{Setup}
use hpe_com_event_integratio.Relay.Shim.{
  ReceivedMessage, complete, abandon, dead_letter, Broker, ShimState, or_abandon, complete_if,
  shim_delivery, try_message, parsed_message, handle_message,
}

-- The body does not decode.
abbrev pub Undecodable : Setup → ReceivedMessage → Type 0
Undecodable c msg = (e : Exc) × (c.loads msg.body ≡ raised e) × (is_decode_error e ≡ true)

-- The body decodes and normalises, and every event reached every target.
abbrev pub Delivered : Setup → ReceivedMessage → ShimState → Type 0
Delivered c msg s =
    (payload : Json) × (events : List CanonicalEvent) × (c.loads msg.body ≡ ok payload)
    × (normalize (c.platform s.station.clock) payload ≡ ok events)
    × ((shim_delivery c events s.station).0 ≡ ok tt)

-- Neither holds, and the body is one that `json.loads` took.
abbrev pub Failed : Setup → ReceivedMessage → ShimState → Type 0
Failed c msg s = (¬ Delivered c msg s) × (¬ Undecodable c msg)

-- The terminal actions that the call has asked the queue for, and how it ends.
abbrev pub EndsRight :
    Broker → Setup → ReceivedMessage → ShimState → Result (Unit {0}) × ShimState → Type 0
EndsRight broker c msg s out =
    (Delivered c msg s
      × (broker complete msg ≡ ok tt)
      × (out.0 ≡ ok tt)
      × (out.1.acks ≡ (msg.handle, complete) ∷ s.acks))
    ⊎ ((Delivered c msg s
          × ((e : Exc) × (broker complete msg ≡ raised e))
          × (out.0 ≡ broker abandon msg)
          × (out.1.acks ≡ (msg.handle, abandon) ∷ (msg.handle, complete) ∷ s.acks))
        ⊎ ((Failed c msg s
              × (out.0 ≡ broker abandon msg)
              × (out.1.acks ≡ (msg.handle, abandon) ∷ s.acks))
            ⊎ ((Undecodable c msg
                  × (out.0 ≡ broker dead_letter msg)
                  × (out.1.acks ≡ (msg.handle, dead_letter) ∷ s.acks))
                ⊎ ((e : Exc) × (c.loads msg.body ≡ raised e)
                    × (is_decode_error e ≡ false)
                    × (out ≡ (raised e, s))))))

module _ (broker : Broker) (c : Setup) (msg : ReceivedMessage) (s : ShimState) where
  decodable : (payload : Json) → c.loads msg.body ≡ ok payload → ¬ Undecodable c msg
  decodable payload l (e, r, d) = cc

  -- A delivery needs both steps to succeed.
  unsuccessful :
      (payload : Json) (r : Result (List CanonicalEvent))
      → c.loads msg.body ≡ ok payload
      → normalize (c.platform s.station.clock) payload ≡ r
      → ((events : List CanonicalEvent)
          → r ≡ ok events
          → (shim_delivery c events s.station).0 ≢ ok tt)
      → ¬ Delivered c msg s
  unsuccessful payload r l n fails (payload', events, l', n', d) =
      let same : payload ≡ payload' = cc in
      fails events (sym n ∙ ap (λ (p : Json). normalize (c.platform s.station.clock) p) same ∙ n') d

  completed :
      (r : Result (Unit {0})) (t : ShimState)
      → Delivered c msg s
      → broker complete msg ≡ r
      → t.acks ≡ (msg.handle, complete) ∷ s.acks
      → EndsRight broker c msg s (or_abandon broker msg (r, t))
  unfolding or_abandon
  completed (ok u) t d b h = inl (d, b, refl, h)
  completed (raised e) t d b h =
      inr (inl (d, (e, b), refl, ap (λ acks. (msg.handle, abandon) ∷ acks) h))

  finished :
      (payload : Json) (events : List CanonicalEvent) (out : Result (Unit {0}) × Station)
      → c.loads msg.body ≡ ok payload
      → normalize (c.platform s.station.clock) payload ≡ ok events
      → shim_delivery c events s.station ≡ out
      → EndsRight broker c msg s (or_abandon broker msg (complete_if broker msg out s))
  unfolding complete_if or_abandon
  finished payload events (ok u, station) l n d =
      completed (broker complete msg)
        (record s { station = station; acks = (msg.handle, complete) ∷ s.acks })
        (payload, events, l, n, rw d) refl refl
  finished payload events (raised e, station) l n d = inr (
      inr (
        inl (
          (
            unsuccessful payload (ok events) l n (λ events' p delivered.
                let same : events ≡ events' = cc in
                let first =
                  ap (λ (xs : List CanonicalEvent). (shim_delivery c xs s.station).0) same in
                let second = ap (λ (out : Result (Unit {0}) × Station). out.0) d in cc),
            decodable payload l,
          ),
          refl,
          refl,
        )))

  tried :
      (payload : Json) (r : Result (List CanonicalEvent))
      → c.loads msg.body ≡ ok payload
      → normalize (c.platform s.station.clock) payload ≡ r
      → EndsRight broker c msg s (or_abandon broker msg (try_message broker c msg r s))
  unfolding or_abandon try_message
  tried payload (raised e) l n = inr (
      inr (
        inl (
          (unsuccessful payload (raised e) l n (λ events p. cc), decodable payload l),
          refl,
          refl,
        )))
  tried payload (ok events) l n =
      finished payload events (shim_delivery c events s.station) l n refl

  parsed :
      (r : Result Json)
      → c.loads msg.body ≡ r
      → EndsRight broker c msg s (parsed_message broker c msg r s)
  unfolding parsed_message
  parsed (raised e) l = elim (Bool-cases (is_decode_error e)) [
    | inl d ↦ rw d (inr (inr (inr (inl ((e, l, d), refl, refl)))))
    | inr d ↦ rw d (inr (inr (inr (inr (e, l, d, refl)))))
  ]
  parsed (ok payload) l = tried payload (normalize (c.platform s.station.clock) payload) l refl

  -- The queue is asked to complete a message only if every event in it reached every target, to
  -- dead-letter it only if its body does not decode, and to abandon it where neither holds or where
  -- completing it raised; each of these is asked for once, and nothing else is. Where `json.loads`
  -- raises what is no decode error, nothing is asked for and the exception escapes.
  pub handle_message-EndsRight : EndsRight broker c msg s (handle_message broker c msg s)
  unfolding handle_message
  handle_message-EndsRight = parsed (c.loads msg.body) refl
