-- ===== src/Core/IloAi/Setup.antt =====
-- com-event-core/com_event_core/enrich/ilo_ai.py: the state of `IloAiEnricher`. It holds the event, the
-- state of the COM client, the budget, the two caches and the requests posted to the analyzer; the time
-- of day is the client's clock.
use hpe_com_event_integratio.Base.{ℕ, String, Bool, List, Option}
use hpe_com_event_integratio.Python.{Json, Result}
use hpe_com_event_integratio.Core.Secrets.{Host}
use hpe_com_event_integratio.Core.Event.{CanonicalEvent}
use hpe_com_event_integratio.Core.Com.{Step, Com, ComState, Response, Transport}
use hpe_com_event_integratio.Core.Redfish.{Ilo}
use hpe_com_event_integratio.Core.IloAi.Budget.{Budget}
use hpe_com_event_integratio.Core.IloAi.Coerce.{Floats}

-- The enricher as it is constructed, and what is not in the repository: the answers of the iLO and of
-- the analyzer, and the time that both take, for each attempt.
pub record Setup : Type 0 where
  pub host : Host
  pub transport : Transport
  pub floats : Floats
  pub ilo : ℕ → Ilo
  pub analyzer : ℕ → Json → Result Response
  pub elapsed : ℕ → ℕ
  pub tenant : String
  pub min_rank : ℕ
  pub per_hour : ℕ
  pub per_day : ℕ
  pub ttl : ℕ
  pub mgmt_url_ttl : ℕ
  pub max_log : ℕ
  pub max_members : ℕ

pub record State : Type 0 where
  pub event : CanonicalEvent
  pub session : ComState
  pub budget : Budget
  pub cache : List (String × (ℕ × Json))
  pub mgmt_url_cache : List (String × (ℕ × Option String))
  pub com_not_configured_warned : Bool
  -- The bodies posted to the analyzer, and the number of attempts to collect evidence.
  pub posts : List Json
  pub attempts : ℕ

abbrev pub max_entries : ℕ
max_entries = 512

abbrev pub stay_in {ℓ} : {A : Type ℓ} → State → Result A × ComState → Result A × State
stay_in s (r, session) = (r, record s { session = session })

abbrev pub on_com {ℓ} : {A : Type ℓ} → Com A → Step State A
on_com m s = stay_in s (m s.session)
