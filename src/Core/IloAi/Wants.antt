-- ===== src/Core/IloAi/Wants.antt =====
-- com-event-core/com_event_core/enrich/ilo_ai.py: which events are analysed, and the address of their
-- iLO. The id of a device is taken to be a text.
use hpe_com_event_integratio.Base.{
  ℕ, String, ◌<>◌, Bool, true, false, List, [], ◌∷◌, Option, none, some, not, ◌&&◌, truthy, ltb,
  if◌then◌else◌,
}
use hpe_com_event_integratio.Python.{
  Json, object, end, Exc, runtime_error, Result, ok, raised, is_truthy, get, get_dict, as_text, str,
  ◌or◌,
}
use hpe_com_event_integratio.Core.Event.{CanonicalEvent, SourceType, alert}
use hpe_com_event_integratio.Core.Com.{
  Step, Com, Client, ◌>>=◌, lift, attempt, com_client, get_server, get_resource,
}
use hpe_com_event_integratio.Core.Advisories.{severity_rank, is_raised, cache_get, cache_put}
use hpe_com_event_integratio.Core.IloAi.Setup.{Setup, State, on_com, max_entries}

abbrev pub is_url : Option String → Bool
is_url none = false
is_url (some u) = truthy u

abbrev pub is_alert : SourceType → Bool
is_alert alert = true
is_alert _ = false

-- `device if isinstance(device, dict) else {}`
abbrev dict_only : Json → Json
dict_only (object fs) = object fs
dict_only _ = object end

-- `((server.get("hardware") or {}).get("bmc") or {}).get("ip")`
unfoldable pub bmc_ip : Json → Result Json
unfolding get_dict get
bmc_ip j = elim (get_dict j "hardware") [
  | raised e ↦ raised e
  | ok hardware ↦ elim (get_dict hardware "bmc") [ raised e ↦ raised e | ok bmc ↦ get bmc "ip" ]
]

module _ (c : Setup) where
  abbrev keep_mgmt_url :
      State
      → Option (Option String) × List (String × (ℕ × Option String))
      → Result (Option (Option String)) × State
  keep_mgmt_url s (found, cache) = (ok found, record s { mgmt_url_cache = cache })

  unfoldable pub cached_mgmt_url : String → Step State (Option (Option String))
  unfolding cache_get
  cached_mgmt_url device_id s =
      keep_mgmt_url s (cache_get c.mgmt_url_ttl s.session.clock device_id s.mgmt_url_cache)

  unfoldable pub put_mgmt_url : String → Option String → Step State (Option String)
  unfolding cache_put
  put_mgmt_url device_id url s = (
    ok url,
    record s {
      mgmt_url_cache =
          cache_put c.mgmt_url_ttl max_entries s.session.clock device_id url s.mgmt_url_cache;
    },
  )

  abbrev select_hardware : List (String × String)
  select_hardware = ("select", "hardware") ∷ []

  abbrev ask_device : Client → Json → String → Com Json
  ask_device client uri device_id =
      if is_truthy uri
      then (lift (as_text uri) >>= λ u. get_resource c.transport client u select_hardware)
      else get_server c.transport client device_id "hardware"

  abbrev url_of_ip : Json → Option String
  url_of_ip ip = if is_truthy ip then some ("https://" <> str c.transport.repr ip) else none

  abbrev read_device : String → Option Json → Step State (Option String)
  read_device device_id none = lift (ok none)
  read_device device_id (some found) = do
    ip ← lift (bmc_ip found)
    put_mgmt_url device_id (url_of_ip ip)

  -- A missing configuration is reported once; any other exception of `ComClient()` goes on.
  abbrev without_client : Exc → Step State (Option String)
  without_client runtime_error s = (ok none, record s { com_not_configured_warned = true })
  without_client e s = (raised e, s)

  abbrev with_client : Json → String → Result Client × State → Result (Option String) × State
  with_client device device_id (raised e, s) = without_client e s
  with_client device device_id (ok client, s) =
      (attempt (lift (get device "resourceUri") >>= λ uri. on_com (ask_device client uri device_id))
          >>= read_device device_id)
        s

  abbrev or_ask : Json → String → Option (Option String) → Step State (Option String)
  or_ask device device_id (some url) s = (ok url, s)
  or_ask device device_id none s =
      with_client device device_id (on_com (com_client c.transport c.host) s)

  abbrev of_device : Json → Json → Step State (Option String)
  of_device device id =
      if is_truthy id
      then (lift (as_text id) >>= λ device_id.
          cached_mgmt_url device_id >>= or_ask device device_id)
      else lift (ok none)

  -- `_resolve_alert_mgmt_url`
  unfoldable pub resolve_alert_mgmt_url : CanonicalEvent → Step State (Option String)
  unfolding cached_mgmt_url put_mgmt_url com_client get_resource get_server bmc_ip get str
  resolve_alert_mgmt_url event = do
    device ← lift (get (event.raw or object end) "device")
    id ← lift (get (dict_only device) "id")
    of_device (dict_only device) id

  unfoldable pub set_mgmt_url : Option String → Step State Bool
  set_mgmt_url url s = (ok (is_url url), record s { event = record s.event { mgmt_url = url } })

  abbrev reachable : CanonicalEvent → Step State Bool
  reachable event =
      if not (is_url event.mgmt_url) && is_alert event.source_type
      then resolve_alert_mgmt_url event >>= set_mgmt_url
      else lift (ok (is_url event.mgmt_url))

  -- `wants`
  unfoldable pub wants : Step State Bool
  unfolding resolve_alert_mgmt_url set_mgmt_url
  wants s =
      if is_raised s.event.action && not (ltb (severity_rank s.event.severity) c.min_rank)
      then reachable s.event s
      else (ok false, s)
