-- ===== src/Tests/Com.antt =====
-- The COM client, the search for a group and the enrichment with advisories, on a small COM.
use hpe_com_event_integratio.Base.{
  ℕ, ◌+◌, ◌*◌, ◌<◌, ◌-◌, String, ◌<>◌, Bool, true, false, List, [], ◌∷◌, Option, none, some, ◌≡◌,
  ◌≢◌, refl, arith, All, length, starts_with, ◌==◌, if◌then◌else◌,
}
use hpe_com_event_integratio.Base.Text.{partition, prefix}
use hpe_com_event_integratio.Python.{
  Json, null, number, text, array, object, nil, cons, field, end, Result, ok, raised, runtime_error,
}
use hpe_com_event_integratio.Core.Secrets.{Host, os_error}
use hpe_com_event_integratio.Core.Event.{CanonicalEvent, blank}
use hpe_com_event_integratio.Core.Com.{
  Call, token_post, get_request, Response, Url, Transport, ComState, Com, Client, cached_token,
}
use hpe_com_event_integratio.Core.Com.Tokens.{AllGet, get_all, cached_token-reused}
use hpe_com_event_integratio.Core.Compliance.{group_found, out_of_fuel, find_group_for_device}
use hpe_com_event_integratio.Core.Compliance.Records.{has_device}
use hpe_com_event_integratio.Core.Compliance.Paging.{find_group_for_device-IsBounded}
use hpe_com_event_integratio.Core.Compliance.Membership.{HasDevice, find_group_for_device-HasDevice}
use hpe_com_event_integratio.Core.Advisories.Page.{
  Event, start_tag, end_tag, data_text, new_parser, feed,
}
use hpe_com_event_integratio.Core.Advisories.Sections.{IsSound, feed-IsSound}
use hpe_com_event_integratio.Core.Advisories.Source.{Web}
use hpe_com_event_integratio.Core.Advisories.Lookup
use hpe_com_event_integratio.Core.Advisories.Effects.{IsBenign, enrich-IsBenign}

abbrev base_url : String
base_url = "https://com.example"

abbrev parse : String → Result Url
parse u =
    if starts_with u "https://com.example"
    then ok (record { scheme = "https"; netloc = "com.example" })
    else if starts_with u "https://"
    then ok (record { scheme = "https"; netloc = "other.example" })
    else ok (record { scheme = ""; netloc = "" })

abbrev group : Json
group = object (
    field "id" (text "g1")
      (field "devices" (array (cons (object (field "deviceId" (text "d1") end)) nil)) end))

abbrev page : Json
page = object (field "items" (array (cons group nil)) (field "total" (number true "1") end))

abbrev reply : Call → Result Response
reply (token_post _ _ _) = ok (record {
  status = 200;
  document =
      ok (object (field "access_token" (text "t1") (field "expires_in" (number true "7199") end)));
})
reply (get_request _ _ _ _) = ok (record { status = 200; document = ok page })

abbrev transport : Transport
transport = record {
  urlparse = parse;
  answer = λ calls call. reply call;
  elapsed = λ calls call. 1;
  to_int = λ j. ok 7199;
  at_most = λ s n. true;
  is_float = λ s. true;
  repr = λ j. "...";
}

abbrev client : Client
client = record { base = base_url; bearer = "t1"; tenant = "" }

abbrev start : ComState
start = record { clock = 100; token = ""; expires_at = 0; calls = [] }

abbrev fetch : Com (String × ℕ)
fetch s = (ok ("t1", 7199), record s { calls = token_post "sso" "id" "secret" ∷ s.calls })

abbrev uses : List (ℕ × Com (String × ℕ))
uses = (60, fetch) ∷ (3600, fetch) ∷ []

cached_token-reused_example :
    ((cached_token transport fetch start).0 ≡ ok "t1")
    × AllGet transport "t1"
        (token_post "sso" "id" "secret" ∷ [])
        (get_all transport uses (cached_token transport fetch start).1)
cached_token-reused_example =
    cached_token-reused transport fetch start (fetch start).1 "t1" 7199 uses refl refl refl
      (omega arith)

find_group_for_device-IsBounded_example :
    ((find_group_for_device transport client "d1" 500 start).0 ≢ ok out_of_fuel)
    × (length (find_group_for_device transport client "d1" 500 start).1.calls * 100
        < length start.calls * 100 + 500 + 100)
find_group_for_device-IsBounded_example =
    find_group_for_device-IsBounded transport client "d1" 500 start

group_run : (find_group_for_device transport client "d1" 2 start).0 ≡ ok (group_found group)
unfolding find_group_for_device hpe_com_event_integratio.Python.elements_or_nil
    hpe_com_event_integratio.Core.Compliance.Records.first_where has_device
    hpe_com_event_integratio.Core.Compliance.Records.is_device
group_run = refl

find_group_for_device-HasDevice_example : HasDevice "d1" group
find_group_for_device-HasDevice_example =
    find_group_for_device-HasDevice transport client "d1" 2 start group group_run

-- A page with one advisory under each heading, and one before them.
abbrev page_events : List Event
page_events =
    start_tag "li" []
    ∷ data_text "Home"
    ∷ end_tag "li"
    ∷ start_tag "h2" []
    ∷ data_text "Open Customer  Advisories"
    ∷ end_tag "h2"
    ∷ start_tag "li" []
    ∷ data_text "a00123: Fan may stop"
    ∷ end_tag "li"
    ∷ start_tag "h2" []
    ∷ data_text "RESOLVED Customer Advisory"
    ∷ end_tag "h2"
    ∷ start_tag "li" []
    ∷ data_text "a00456 - [x] Disk"
    ∷ end_tag "li"
    ∷ []

-- The entry before the headings is left out.
two_entries : length (feed page_events new_parser).entries ≡ 2
unfolding feed hpe_com_event_integratio.Base.contains
    hpe_com_event_integratio.Core.Advisories.Patterns.is_open_heading
    hpe_com_event_integratio.Base.Text.lower hpe_com_event_integratio.Base.Text.strip
    hpe_com_event_integratio.Base.Text.join
    hpe_com_event_integratio.Core.Advisories.Patterns.is_resolved_heading
    hpe_com_event_integratio.Core.Advisories.Patterns.squeeze
two_entries = refl

feed-IsSound_example : IsSound (feed page_events new_parser)
feed-IsSound_example = feed-IsSound page_events

abbrev environment : String → Option String
environment name =
    if name == "COM_BASE_URL"
    then some "https://com.example/"
    else if name == "COM_PAT"
    then some "p"
    else none

abbrev host : Host
host = record { env = environment; read = λ name. os_error }

abbrev web : Web
web = record {
  urlparse = λ u. raised runtime_error;
  versions = λ q. ok [];
  urlunparse = λ s n p. p;
  fetch_json = λ u. raised runtime_error;
  fetch_page = λ u. raised runtime_error;
  events = λ html. ok page_events;
}

abbrev setup : Lookup.Setup
setup = record { host = host; transport = transport; web = web; ttl = 60; check_compliance = true }

abbrev event : CanonicalEvent
event = record blank {
  raw =
      object
        (field "firmwareBundleUri" (text "/v1/firmware-bundles/b1") (field "id" (text "d1") end));
  title = text "memory dimm degraded";
}

abbrev state : Lookup.State
state = record { event = event; session = start; cache = []; compliance_cache = [] }

-- The bundle's reference is completed with the mount point of the service, and the group is asked for.
first_call :
    (Lookup.enrich setup state).1.session.calls
    ≡ get_request "https://com.example/compute-ops-mgmt/v1/groups/g1/compliance"
        (("limit", "100") ∷ ("offset", "0") ∷ [])
        "p"
        ""
      ∷ get_request "https://com.example/compute-ops-mgmt/v1/groups"
          (("limit", "100") ∷ ("offset", "0") ∷ [])
          "p"
          ""
      ∷ get_request "https://com.example/compute-ops-mgmt/v1/firmware-bundles/b1" [] "p" ""
      ∷ []
unfolding Lookup.enrich hpe_com_event_integratio.Core.Advisories.Bundle.ref_text
    hpe_com_event_integratio.Base.Dict.lookup has_device
    hpe_com_event_integratio.Core.Compliance.Records.is_device
    hpe_com_event_integratio.Core.Advisories.keywords hpe_com_event_integratio.Base.Text.decimal
first_call = refl

enrich-IsBenign_example : IsBenign setup event (Lookup.enrich setup state).1
enrich-IsBenign_example = enrich-IsBenign setup state tt
