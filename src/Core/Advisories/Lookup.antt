-- ===== src/Core/Advisories/Lookup.antt =====
-- com-event-core/com_event_core/enrich/hpe_advisories.py: `HpeAdvisoriesEnricher`. The state holds the
-- event, the COM client's state and the two caches; the time of day is the client's clock. The
-- reference of a bundle and the id of a device are taken to be texts: anything else raises.
use hpe_com_event_integratio.Base.{
  ℕ, String, Bool, List, [], ◌∷◌, ◌++◌, Option, none, some, not, contains, if◌then◌else◌,
}
use hpe_com_event_integratio.Base.Text.{lower, strip}
use hpe_com_event_integratio.Python.{
  Json, null, text, array, object, Items, nil, cons, field, end, Result, ok, is_truthy, get,
  as_text, str, ◌or◌,
}
use hpe_com_event_integratio.Core.Secrets.{Host}
use hpe_com_event_integratio.Core.Event.{CanonicalEvent}
use hpe_com_event_integratio.Core.Com.{
  Step, Com, ComState, Transport, ◌>>=◌, lift, attempt, com_client, get_server, get_firmware_bundle,
}
use hpe_com_event_integratio.Core.Compliance.{resolve_compliance}
use hpe_com_event_integratio.Core.Advisories.{cache_get, cache_put, relevant}
use hpe_com_event_integratio.Core.Advisories.Bundle.{bundle_ref_in, ref_text, bundle_info}
use hpe_com_event_integratio.Core.Advisories.Source.{Web, Parsed, fetch_and_parse_advisories}

-- What `_fetch` returns and the cache holds.
pub record Advisories : Type 0 where
  pub bundle : Json
  pub open_cas : List Json
  pub resolved_cas : List Json

-- The enricher as it is constructed.
pub record Setup : Type 0 where
  pub host : Host
  pub transport : Transport
  pub web : Web
  pub ttl : ℕ
  pub check_compliance : Bool

pub record State : Type 0 where
  pub event : CanonicalEvent
  pub session : ComState
  pub cache : List (String × (ℕ × Advisories))
  pub compliance_cache : List (String × (ℕ × Json))

-- HPE_ADVISORIES_CHECK_COMPLIANCE, as the constructor reads it.
unfoldable pub checks_compliance : String → Bool
unfolding lower strip
checks_compliance raw = not (contains ("0" ∷ "false" ∷ "no" ∷ []) (lower (strip raw)))

abbrev pub stay_in {ℓ} : {A : Type ℓ} → State → Result A × ComState → Result A × State
stay_in s (r, session) = (r, record s { session = session })

-- A step of the client.
abbrev pub on_com {ℓ} : {A : Type ℓ} → Com A → Step State A
on_com m s = stay_in s (m s.session)

-- The size of both caches.
abbrev max_entries : ℕ
max_entries = 64

abbrev keep_cache :
    State
    → Option Advisories × List (String × (ℕ × Advisories))
    → Result (Option Advisories) × State
keep_cache s (found, cache) = (ok found, record s { cache = cache })

abbrev keep_compliance :
    State → Option Json × List (String × (ℕ × Json)) → Result (Option Json) × State
keep_compliance s (found, cache) = (ok found, record s { compliance_cache = cache })

module _ (c : Setup) where
  unfoldable pub cached_advisories : String → Step State (Option Advisories)
  unfolding cache_get
  cached_advisories ref s = keep_cache s (cache_get c.ttl s.session.clock ref s.cache)

  unfoldable pub put_advisories : String → Advisories → Step State (Unit {0})
  unfolding cache_put
  put_advisories ref found s =
      (ok tt, record s { cache = cache_put c.ttl max_entries s.session.clock ref found s.cache })

  unfoldable pub cached_compliance : String → Step State (Option Json)
  unfolding cache_get
  cached_compliance device_id s =
      keep_compliance s (cache_get c.ttl s.session.clock device_id s.compliance_cache)

  unfoldable pub put_compliance : String → Option Json → Step State (Unit {0})
  unfolding cache_put
  put_compliance device_id none s = (ok tt, s)
  put_compliance device_id (some found) s = (
    ok tt,
    record s {
      compliance_cache =
          cache_put c.ttl max_entries s.session.clock device_id found s.compliance_cache;
    },
  )

  abbrev pub looked_up : Option Json → Step State (Option String)
  looked_up none = lift (ok none)
  looked_up (some server) = do ref ← lift (bundle_ref_in server); lift (ref_text ref)

  -- `client.get_server` within `with ComClient() as client`
  abbrev pub ask_server : String → Com Json
  ask_server server_id = do
    client ← com_client c.transport c.host
    get_server c.transport client server_id
        "firmwareBundleUri,lastFirmwareUpdate,firmwareInventory,hardware,serverGeneration"

  abbrev pub from_server : Json → Step State (Option String)
  from_server server_id =
      if is_truthy server_id
      then attempt (on_com (ask_server (str c.transport.repr server_id))) >>= looked_up
      else lift (ok none)

  -- `_resolve_bundle_ref`
  unfoldable pub resolve_bundle_ref : CanonicalEvent → Step State (Option String)
  unfolding bundle_ref_in com_client get_server get str
  resolve_bundle_ref event = do
    ref ← lift (bundle_ref_in (event.raw or object end))
    id ← lift (get (event.raw or object end) "id")
    (if is_truthy ref then lift (ref_text ref) else from_server (id or text event.event_id))

  abbrev pub ask_bundle : String → Com Json
  ask_bundle ref = do
    client ← com_client c.transport c.host
    get_firmware_bundle c.transport client ref

  abbrev pub or_nothing : Json → Option Parsed → Advisories
  or_nothing bundle none = record { bundle = bundle; open_cas = []; resolved_cas = [] }
  or_nothing bundle (some parsed) = record {
    bundle = bundle;
    open_cas = parsed.open_cas;
    resolved_cas = parsed.resolved_cas;
  }

  abbrev pub parsed_page : Json → Step State (Option Parsed)
  parsed_page url =
      if is_truthy url
      then attempt (lift (as_text url) >>= λ u. lift (fetch_and_parse_advisories c.web u))
      else lift (ok none)

  abbrev pub read_bundle : Option Json → Step State (Option Advisories)
  read_bundle none = lift (ok none)
  read_bundle (some bundle) = do
    url ← lift (get bundle "advisories")
    info ← lift (bundle_info bundle)
    parsed ← parsed_page url
    lift (ok (some (or_nothing info parsed)))

  -- `_fetch`
  unfoldable pub fetch : String → Step State (Option Advisories)
  unfolding com_client get_firmware_bundle bundle_info fetch_and_parse_advisories get
  fetch ref = do bundle ← attempt (on_com (ask_bundle ref)); read_bundle bundle

  abbrev pub ask_compliance : String → Com (Option Json)
  ask_compliance device_id = do
    client ← com_client c.transport c.host
    resolve_compliance c.transport client device_id

  abbrev pub joined : Option (Option Json) → Option Json
  joined none = none
  joined (some compliance) = compliance

  abbrev pub fresh_compliance : String → Option Json → Step State (Option Json)
  fresh_compliance device_id (some compliance) = lift (ok (some compliance))
  fresh_compliance device_id none = do
    answer ← attempt (on_com (ask_compliance device_id))
    _ ← put_compliance device_id (joined answer)
    lift (ok (joined answer))

  abbrev pub compliance_for : Json → Step State (Option Json)
  compliance_for id =
      if is_truthy id
      then (lift (as_text id) >>= λ device_id.
          cached_compliance device_id >>= fresh_compliance device_id)
      else lift (ok none)

  -- `_resolve_compliance`
  unfoldable pub compliance_of_event : CanonicalEvent → Step State (Option Json)
  unfolding com_client resolve_compliance cached_compliance put_compliance get
  compliance_of_event event = do
    id ← lift (get (event.raw or object end) "id")
    compliance_for (id or text event.event_id)

  abbrev pub json_items : List Json → Items
  json_items [] = nil
  json_items (j ∷ js) = cons j (json_items js)

  abbrev or_null : Option Json → Json
  or_null none = null
  or_null (some j) = j

  abbrev pub evidence_of : Advisories → Option Json → Json
  evidence_of found compliance = object (
      field "bundle" found.bundle (
        field "open" (array (json_items found.open_cas)) (
          field "resolved" (array (json_items found.resolved_cas))
            (field "compliance" (or_null compliance) end))))

  unfoldable pub set_evidence : Json → Step State (Unit {0})
  set_evidence evidence s =
      (ok tt, record s { event = record s.event { advisory_evidence = evidence } })

  unfoldable pub set_references : List Json → Step State (Unit {0})
  set_references matched s =
      (ok tt, record s { event = record s.event { advisory_references = matched } })

  abbrev pub and_resolved : CanonicalEvent → Advisories → List Json → Step State (Unit {0})
  and_resolved event found open_refs = do
    resolved_refs ← lift (relevant event found.resolved_cas "resolved")
    set_references (open_refs ++ resolved_refs)

  -- `_apply`
  unfoldable pub apply : CanonicalEvent → Advisories → Option Json → Step State (Unit {0})
  unfolding set_evidence set_references relevant
  apply event found compliance = do
    _ ← set_evidence (evidence_of found compliance)
    open_refs ← lift (relevant event found.open_cas "open")
    and_resolved event found open_refs

  abbrev pub attach : CanonicalEvent → Option Advisories → Step State (Unit {0})
  attach event none = lift (ok tt)
  attach event (some found) = do
    compliance ← (if c.check_compliance then compliance_of_event event else lift (ok none))
    apply event found compliance

  abbrev pub remember : String → Option Advisories → Step State (Option Advisories)
  remember ref none = lift (ok none)
  remember ref (some found) = put_advisories ref found >>= λ _. lift (ok (some found))

  abbrev pub or_fetch : String → Option Advisories → Step State (Option Advisories)
  or_fetch ref (some found) = lift (ok (some found))
  or_fetch ref none = fetch ref >>= remember ref

  abbrev pub enrich_with : CanonicalEvent → Option String → Step State (Unit {0})
  enrich_with event none = lift (ok tt)
  enrich_with event (some ref) = do
    cached ← cached_advisories ref
    found ← or_fetch ref cached
    attach event found

  -- `enrich`
  unfoldable pub enrich : Step State (Unit {0})
  unfolding resolve_bundle_ref cached_advisories fetch put_advisories apply compliance_of_event
  enrich s = (resolve_bundle_ref s.event >>= enrich_with s.event) s
