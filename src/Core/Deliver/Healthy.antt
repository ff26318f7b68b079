-- ===== src/Core/Deliver/Healthy.antt =====
-- Deliveries to targets that all answer.
use hpe_com_event_integratio.Base.{ℕ, List, [], ◌∷◌, ◌≡◌, refl, arith, All}
use hpe_com_event_integratio.Python.{ok}
use hpe_com_event_integratio.Core.Event.{CanonicalEvent}
use hpe_com_event_integratio.Core.Deliver.{
  TargetAdapter, Station, deliver_one, deliver_each, deliver, collect_failures, deliver_events,
}

-- `forward` never raises.
abbrev pub Answers : TargetAdapter → Type 0
Answers a = (calls : ℕ) (event : CanonicalEvent) → (a.forward calls event).outcome ≡ ok tt

module _ (ttl : ℕ) where
  one-healthy :
      (event : CanonicalEvent) (a : TargetAdapter) (s : Station)
      → Answers a
      → (deliver_one ttl event a s).0 ≡ []
  unfolding deliver_one
  one-healthy event a s h = ground (arith, h s.calls event)

  each-healthy :
      (event : CanonicalEvent) (adapters : List TargetAdapter) (s : Station)
      → All Answers adapters
      → (deliver_each ttl event adapters s).0 ≡ []
  unfolding deliver_each
  each-healthy event [] s h = refl
  each-healthy event (a ∷ adapters) s h =
      rw (one-healthy event a s h.0) (each-healthy event adapters _ h.1)

  collect-healthy :
      (events : List CanonicalEvent) (adapters : List TargetAdapter) (s : Station)
      → All Answers adapters
      → (collect_failures ttl events adapters s).0 ≡ []
  unfolding collect_failures deliver
  collect-healthy [] adapters s h = refl
  collect-healthy (event ∷ events) adapters s h =
      rw (each-healthy event adapters s h) (collect-healthy events adapters _ h)

  -- If no adapter ever raises, the delivery of a batch returns.
  pub deliver_events-healthy :
      (events : List CanonicalEvent) (adapters : List TargetAdapter) (s : Station)
      → All Answers adapters
      → (deliver_events ttl events adapters s).0 ≡ ok tt
  unfolding deliver_events
  deliver_events-healthy events adapters s h = rw (collect-healthy events adapters s h)
