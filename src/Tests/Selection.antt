-- ===== src/Tests/Selection.antt =====
-- Selectors and enrichers.
use hpe_com_event_integratio.Base.{String, true, [], ◌∷◌, ◌≡◌, refl, ◌&&◌, truthy, contains}
use hpe_com_event_integratio.Base.Text.{split}
use hpe_com_event_integratio.Python.{ok, raised, key_error}
use hpe_com_event_integratio.Core.Event.{blank}
use hpe_com_event_integratio.Core.Deliver.Once.{NoRepeats}
use hpe_com_event_integratio.Core.Registry.{ordered_names}
use hpe_com_event_integratio.Core.Registry.Names.{names_part, ordered_names-exact}
use hpe_com_event_integratio.Core.Enrich.{Enricher, enrich_events}

abbrev targets : String
targets = " Jira,slack ,,jira"

targets_order : ordered_names targets ≡ "jira" ∷ "slack" ∷ []
unfolding ordered_names contains
targets_order = refl

ordered_names-exact_example :
    NoRepeats (ordered_names targets)
    × ((n : String)
        → contains (ordered_names targets) n ≡ (truthy n && names_part (split b',' targets) n))
ordered_names-exact_example = ordered_names-exact targets

-- Adds an analysis, and raises after that.
abbrev failing : Enricher
failing = record {
  name = "ilo_ai";
  priority = 50;
  wants = λ now event. record { event = event; outcome = ok true; elapsed = 0 };
  enrich = λ now event. record {
    event = record event { advisory_references = event.raw ∷ [] };
    outcome = raised key_error;
    elapsed = 3;
  };
}

abbrev declining : Enricher
declining = record failing {
  name = "hpe_advisories";
  priority = 10;
  wants = λ now event. record { event = event; outcome = raised key_error; elapsed = 1 };
}

-- What the failing one had set stays, and the time of both calls passes.
enriched_run :
    enrich_events (blank ∷ []) (failing ∷ declining ∷ []) 5
    ≡ (record blank { advisory_references = blank.raw ∷ [] } ∷ [], 9)
unfolding enrich_events
enriched_run = refl
