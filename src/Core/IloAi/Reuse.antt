-- ===== src/Core/IloAi/Reuse.antt =====
-- An analysis is used again.
use hpe_com_event_integratio.Base.{ℕ, String, List, ◌≡◌}
use hpe_com_event_integratio.Python.{Json}
use hpe_com_event_integratio.Core.Event.{CanonicalEvent}
use hpe_com_event_integratio.Core.Advisories.{cache_put}
use hpe_com_event_integratio.Core.IloAi.Setup.{Setup, State, max_entries}

-- Nothing was asked of the budget, of an iLO or of the analyzer.
abbrev pub IsFree : State → State → Type 0
IsFree s s' = (s'.posts ≡ s.posts) × ((s'.budget ≡ s.budget) × (s'.attempts ≡ s.attempts))

module _ (c : Setup) where
  -- An analysis that succeeds is stored, at the time of the end.
  abbrev IsStored : CanonicalEvent → State → Type 0
  IsStored event u =
      (result : Json) × (cache : List (String × (ℕ × Json))) × (u.cache
        ≡ cache_put c.ttl max_entries u.session.clock event.correlation_key result cache)
