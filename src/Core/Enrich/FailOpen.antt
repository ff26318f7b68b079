-- ===== src/Core/Enrich/FailOpen.antt =====
-- Enrichment never gets in the way of a delivery.
use hpe_com_event_integratio.Base.{ℕ, String, Bool, true, List, [], ◌∷◌, ◌≡◌, refl, ◌∙◌, map, All}
use hpe_com_event_integratio.Python.{Result, ok}
use hpe_com_event_integratio.Core.Event.{CanonicalEvent}
use hpe_com_event_integratio.Core.Enrich.{Enricher, enrich_if, run_enrichers, enrich_events}

-- The keys by which an event is delivered once and correlated.
abbrev keys : CanonicalEvent → String × String
keys e = (e.dedup_key, e.correlation_key)

abbrev KeepsKeys : Enricher → Type 0
KeepsKeys e =
    (now : ℕ) (event : CanonicalEvent)
    → (keys (e.wants now event).event ≡ keys event) × (keys (e.enrich now event).event ≡ keys event)

one-keys :
    (r : Result Bool) (e : Enricher) (now : ℕ) (event : CanonicalEvent)
    → KeepsKeys e
    → keys (enrich_if r e now event).0 ≡ keys event
unfolding enrich_if
one-keys (ok true) e now event h = (h now event).1
one-keys _ e now event h = refl

run-keys :
    (es : List Enricher) (now : ℕ) (event : CanonicalEvent)
    → All KeepsKeys es
    → keys (run_enrichers es now event).0 ≡ keys event
unfolding run_enrichers
run-keys [] now event h = refl
run-keys (e ∷ es) now event h =
    run-keys es _ _ h.1
    ∙ one-keys (e.wants now event).outcome e _ (e.wants now event).event h.0
    ∙ (h.0 now event).0

-- Enrichers that leave the two keys of an event alone, whether they return or raise, leave a batch
-- with as many events, of the same keys, in the same order.
enrich_events-keys :
    (events : List CanonicalEvent) (es : List Enricher) (now : ℕ)
    → All KeepsKeys es
    → map keys (enrich_events events es now).0 ≡ map keys events
unfolding enrich_events
enrich_events-keys [] es now h = refl
enrich_events-keys (event ∷ events) es now h =
    rw (run-keys es now event h, enrich_events-keys events es _ h)
