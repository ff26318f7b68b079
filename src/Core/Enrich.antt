-- ===== src/Core/Enrich.antt =====
-- com-event-core/com_event_core/enrich/__init__.py: the registry of enrichers and the runner. An
-- enricher is a parameter: its answers may depend on the event and on the clock in any way.
pub mod Order
pub mod FailOpen
use hpe_com_event_integratio.Base.{
  ℕ, ◌+◌, String, Bool, true, false, List, [], ◌∷◌, leb, if◌then◌else◌,
}
use hpe_com_event_integratio.Python.{Result, ok, raised, ◌>>=◌}
use hpe_com_event_integratio.Core.Event.{CanonicalEvent}
use hpe_com_event_integratio.Core.Registry.{ordered_names, instantiate_all}

-- What one call of `wants` does: it may change the event too, and ask COM, which takes time.
pub record Asked : Type 0 where
  pub event : CanonicalEvent
  pub outcome : Result Bool
  pub elapsed : ℕ

-- What one call of `enrich` does: it leaves the event changed, also where it raises in the end.
pub record Enriched : Type 0 where
  pub event : CanonicalEvent
  pub outcome : Result (Unit {0})
  pub elapsed : ℕ

pub record Enricher : Type 0 where
  pub name : String
  pub priority : ℕ
  pub wants : ℕ → CanonicalEvent → Asked
  pub enrich : ℕ → CanonicalEvent → Enriched

-- The keys of `_ENRICHERS`.
abbrev pub enricher_names : List String
enricher_names = "ilo_ai" ∷ "hpe_advisories" ∷ []

-- `enrichers.sort(key=lambda e: e.priority)`, which is stable.
unfoldable pub insert_by_priority : Enricher → List Enricher → List Enricher
insert_by_priority e [] = e ∷ []
insert_by_priority e (d ∷ ds) =
    if leb e.priority d.priority then e ∷ d ∷ ds else d ∷ insert_by_priority e ds

unfoldable pub sort_by_priority : List Enricher → List Enricher
sort_by_priority [] = []
sort_by_priority (e ∷ es) = insert_by_priority e (sort_by_priority es)

unfoldable pub get_enrichers : (String → Result Enricher) → String → Result (List Enricher)
unfolding sort_by_priority insert_by_priority
get_enrichers construct raw = do
  enrichers ← instantiate_all construct enricher_names (ordered_names raw)
  ok (sort_by_priority enrichers)

-- `try: if not wants: continue; enrich` with every exception swallowed. The time goes on.
unfoldable pub enrich_if : Result Bool → Enricher → ℕ → CanonicalEvent → CanonicalEvent × ℕ
enrich_if (ok true) e now event =
    let after = e.enrich now event in (after.event, now + after.elapsed)
enrich_if _ e now event = (event, now)

unfoldable pub run_enrichers : List Enricher → ℕ → CanonicalEvent → CanonicalEvent × ℕ
unfolding enrich_if
run_enrichers [] now event = (event, now)
run_enrichers (e ∷ es) now event =
    let asked = e.wants now event in
    let (event', later) = enrich_if asked.outcome e (now + asked.elapsed) asked.event in
    run_enrichers es later event'

unfoldable pub enrich_events : List CanonicalEvent → List Enricher → ℕ → List CanonicalEvent × ℕ
unfolding run_enrichers
enrich_events [] enrichers now = ([], now)
enrich_events (event ∷ events) enrichers now =
    let (event', later) = run_enrichers enrichers now event in
    let (rest, end) = enrich_events events enrichers later in (event' ∷ rest, end)
