-- ===== src/Tests/Analysis.antt =====
-- The analysis of an event, its budget and its evidence.
use hpe_com_event_integratio.Base.{
  ℕ, ◌+◌, ◌*◌, ◌≤◌, nat_eq, ◌==◌, ◌||◌, String, Bool, true, false, List, [], ◌∷◌, Option, none,
  some, ◌≡◌, refl, arith, All, length, if◌then◌else◌,
}
use hpe_com_event_integratio.Python.{
  Json, number, text, array, object, nil, cons, field, end, Result, ok, raised, runtime_error,
}
use hpe_com_event_integratio.Core.Secrets.{Host, os_error}
use hpe_com_event_integratio.Core.Event.{CanonicalEvent, blank}
use hpe_com_event_integratio.Core.Com.{Transport}
use hpe_com_event_integratio.Core.Redfish.{Ilo, new_evidence}
use hpe_com_event_integratio.Core.Redfish.Sensors.{Numbers}
use hpe_com_event_integratio.Core.Redfish.Log.{Dated, LogRead, read_members, short_entries}
use hpe_com_event_integratio.Core.Redfish.Newest.{
  IsNewestFirst, AreProblemsOf, IsCut, read_members-newest,
}
use mathlib.Core.List.{Perm}
use hpe_com_event_integratio.Core.Redfish.Members.{collect_unhealthy_members}
use hpe_com_event_integratio.Core.Redfish.Bounds.{IsBounded, collect_unhealthy_members-IsBounded}
use hpe_com_event_integratio.Core.IloAi.Budget.{new_budget}
use hpe_com_event_integratio.Core.IloAi.Setup.{Setup, State}
use hpe_com_event_integratio.Core.IloAi.Analyze.{enrich}
use hpe_com_event_integratio.Core.IloAi.Payment.{enrich_each, enrich_each-posts}

abbrev numbers : Numbers
numbers = record { at_most = λ a b. true; repr = λ j. "..." }

abbrev member : String → Json
member health = object (field "Status" (object (field "Health" (text health) end)) end)

abbrev reference : String → Json
reference path = object (field "@odata.id" (text path) end)

abbrev memory : Json
memory = object (
    field "Members"
      (array (cons (reference "/a") (cons (reference "/b") (cons (reference "/c") nil)))) end)

abbrev ilo : Ilo
ilo = record {
  answer = λ gets path. ok (record {
    status = 200;
    document = (if nat_eq (length gets) 0 then ok memory else ok (member "Critical"));
  });
  numbers = numbers;
}

collect_unhealthy_members-IsBounded_example :
    IsBounded ilo 2
      (length new_evidence.gets + 1 + 2)
      (collect_unhealthy_members ilo "/redfish/v1/Systems/1/Memory" 2 new_evidence)
collect_unhealthy_members-IsBounded_example =
    collect_unhealthy_members-IsBounded ilo "/redfish/v1/Systems/1/Memory" 2 new_evidence

abbrev log_entry : String → String → Json
log_entry severity created =
    object (field "Severity" (text severity) (field "Created" (text created) end))

abbrev log_entries : List Json
log_entries =
    log_entry "OK" "2026-01-01"
    ∷ log_entry "Warning" "2026-01-02"
    ∷ log_entry "Critical" "2026-01-03"
    ∷ []

abbrev log_of : Result LogRead → LogRead
log_of (ok l) = l
log_of (raised e) = record { entries = []; total = 0 }

abbrev log_read : LogRead
log_read = log_of (read_members numbers 1 log_entries)

log_run : read_members numbers 1 log_entries ≡ ok log_read
unfolding read_members hpe_com_event_integratio.Base.contains
log_run = refl

read_members-newest_example :
    (log_read.total ≡ length log_entries)
    × ((problems : List Dated) × (sorted : List Dated) × (kept : List Dated) × AreProblemsOf numbers
          log_entries problems
        × Perm sorted problems
        × IsNewestFirst sorted
        × IsCut 1 kept sorted
        × (short_entries kept ≡ ok log_read.entries))
read_members-newest_example = read_members-newest numbers 1 log_entries log_read log_run

abbrev host : Host
host = record {
  env = λ name. if name == "ILO_USERNAME" || name == "ILO_PASSWORD" then some "x" else none;
  read = λ name. os_error;
}

abbrev transport : Transport
transport = record {
  urlparse = λ u. raised runtime_error;
  answer = λ calls call. raised runtime_error;
  elapsed = λ calls call. 1;
  to_int = λ j. ok 0;
  at_most = λ s n. true;
  is_float = λ s. true;
  repr = λ j. "...";
}

abbrev setup : Setup
setup = record {
  host = host;
  transport = transport;
  floats = record {
    parse = λ s. none;
    above_one = λ s. false;
    hundredth = λ s. s;
    clamp = λ s. number true s;
    repr = λ j. "...";
  };
  ilo = λ n. ilo;
  analyzer = λ n body. ok (record {
    status = 200;
    document = ok (object (field "result" (text "A DIMM is failing") end));
  });
  elapsed = λ n. 5;
  tenant = "";
  min_rank = 1;
  per_hour = 1;
  per_day = 10;
  ttl = 60;
  mgmt_url_ttl = 60;
  max_log = 25;
  max_members = 64;
}

abbrev event : CanonicalEvent
event = record blank { correlation_key = "server:s1:health"; mgmt_url = some "https://10.0.0.1" }

abbrev state : State
state = record {
  event = event;
  session = record { clock = 5000; token = ""; expires_at = 0; calls = [] };
  budget = new_budget;
  cache = [];
  mgmt_url_cache = [];
  com_not_configured_warned = false;
  posts = [];
  attempts = 0;
}

abbrev events : List (ℕ × CanonicalEvent)
events = (0, event) ∷ (10, event) ∷ (10, event) ∷ []

-- The first event is analysed, and the others take its analysis from the cache.
posts_run : length (enrich_each setup events state).posts ≡ 1
unfolding enrich hpe_com_event_integratio.Base.Dict.lookup hpe_com_event_integratio.Base.Dict.insert
posts_run = refl

clock_run : (enrich_each setup events state).session.clock ≡ 5025
unfolding enrich hpe_com_event_integratio.Base.Dict.lookup hpe_com_event_integratio.Base.Dict.insert
clock_run = refl

enrich_each-posts_example :
    length (enrich_each setup events state).posts ≤ length state.posts + 2 * setup.per_hour
enrich_each-posts_example =
    enrich_each-posts setup 5000 events state (omega arith) (omega (arith, clock_run)) (omega arith)

abbrev analysed : State
analysed = (enrich setup state).1

abbrev later : State
later = record analysed {
  event = event;
  session = record analysed.session { clock = analysed.session.clock + 30 };
}
