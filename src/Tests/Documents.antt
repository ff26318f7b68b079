-- ===== src/Tests/Documents.antt =====
-- Payloads of a server and of an alert through `normalize`.
use hpe_com_event_integratio.Base.{
  ℕ, String, ◌<>◌, Bool, true, false, List, [], ◌∷◌, Option, none, some, ◌≡◌, ◌≢◌, refl, arith, map,
  eq_iff, inl,
}
use hpe_com_event_integratio.Base.Text.{join, upper, lower, strip, split, ends_with, partition}
use hpe_com_event_integratio.Python.{
  null, Json, bool, text, object, field, end, Result, ok, raised, ◌>>=◌, get, get_or, get_dict,
  as_text, str,
}
use hpe_com_event_integratio.Core.Event.{CanonicalEvent, blank, raise, clear}
use hpe_com_event_integratio.Core.Normalize.{normalize}
use hpe_com_event_integratio.Core.Normalize.Environment.{Platform}
use hpe_com_event_integratio.Core.Normalize.AssetId.{split_asset_id}
use hpe_com_event_integratio.Core.Normalize.Monitors.{
  Condition, health, power, enabled_monitors, add_condition, add_names,
}
use hpe_com_event_integratio.Core.Normalize.Conditions.{evaluate}
use hpe_com_event_integratio.Core.Normalize.Server.{normalize_server}
use hpe_com_event_integratio.Core.Normalize.Alert.{normalize_alert}
use hpe_com_event_integratio.Core.Normalize.Pairs.{
  IsOpen, IsOver, hashed_text, normalize_alert-pair,
}
use hpe_com_event_integratio.Core.Normalize.Lifecycle.{
  identity, identity_key, ReportsAll, normalize_server-ReportsAll, normalize_server-correlates,
}
use hpe_com_event_integratio.Core.Adapters.Alerts.{to_pager_event}
use hpe_com_event_integratio.Core.Adapters.FromAlerts.{Asks, normalize_alert-to_pager_event}

-- A hash that keeps its text, and no date that parses.
abbrev pub test_platform : Platform
test_platform = record {
  repr = λ j. "[]";
  sha1 = λ s. s;
  from_iso = λ s. none;
  now = 0;
  server_monitors = "health, Power";
}

abbrev one_field : String → Json → Json
one_field k v = object (field k v end)

-- A server whose hardware is in the given health.
abbrev server_in : String → Json
server_in summary = object (
    field "id" (text "P1+S1") (
      field "type" (text "compute-ops-mgmt/server") (
        field "name" (text "node-7") (
          field "hardware"
            (object (
              field "serialNumber" (text "S1") (
                field "powerState" (text "ON")
                  (field "health" (one_field "summary" (text summary)) end))))
            end))))

abbrev pub events_or_none : Result (List CanonicalEvent) → List CanonicalEvent
events_or_none (ok events) = events
events_or_none (raised e) = []

abbrev degraded : Json
degraded = server_in "CRITICAL"

abbrev recovered : Json
recovered = server_in "OK"

abbrev opened_events : List CanonicalEvent
opened_events = events_or_none (normalize_server test_platform degraded)

degraded_runs : normalize_server test_platform degraded ≡ ok opened_events
unfolding normalize_server get_dict get split_asset_id hpe_com_event_integratio.Base.Text.has_char
    enabled_monitors split strip add_names add_condition lower evaluate
    hpe_com_event_integratio.Core.Normalize.Severity.map_health_severity as_text
degraded_runs = refl

abbrev recovered_events : List CanonicalEvent
recovered_events = events_or_none (normalize_server (record test_platform { now = 9 }) recovered)

recovered_runs : normalize_server (record test_platform { now = 9 }) recovered ≡ ok recovered_events
unfolding normalize_server get_dict get split_asset_id hpe_com_event_integratio.Base.Text.has_char
    enabled_monitors split strip add_names add_condition lower evaluate
    hpe_com_event_integratio.Core.Normalize.Severity.map_health_severity as_text
recovered_runs = refl

-- The first snapshot raises and the second clears, under the same keys.
actions_of_runs :
    (map (λ e. e.action) opened_events ≡ raise ∷ clear ∷ [])
    × (map (λ e. e.action) recovered_events ≡ clear ∷ clear ∷ [])
    × (map (λ e. e.correlation_key) recovered_events ≡ "server:S1:health" ∷ "server:S1:power" ∷ [])
unfolding normalize_server get_dict get split_asset_id hpe_com_event_integratio.Base.Text.has_char
    enabled_monitors split strip add_names add_condition lower evaluate
    hpe_com_event_integratio.Core.Normalize.Severity.map_health_severity as_text upper str
actions_of_runs = (refl, refl, refl)

same_identity : identity degraded ≡ identity recovered
unfolding identity get_dict get
same_identity = refl

normalize_server-ReportsAll_example :
    (base : String) × (conds : List Condition) × ((identity degraded
        >>= identity_key test_platform.repr)
      ≡ ok base)
    × (enabled_monitors test_platform.server_monitors ≡ ok conds)
    × ReportsAll base conds opened_events
normalize_server-ReportsAll_example =
    normalize_server-ReportsAll test_platform degraded opened_events degraded_runs

normalize_server-correlates_example :
    map (λ e. e.correlation_key) opened_events ≡ map (λ e. e.correlation_key) recovered_events
normalize_server-correlates_example =
    normalize_server-correlates test_platform 9 degraded recovered opened_events recovered_events
      same_identity degraded_runs recovered_runs

-- An alert, open or cleared.
abbrev alert_payload : Bool → Json
alert_payload cleared = object (
    field "id" (text "A1") (
      field "type" (text "compute-ops-mgmt/alert") (
        field "description" (text "Fan failed")
          (field "severity" (text "CRITICAL") (field "cleared" (bool cleared) end)))))

abbrev event_or_blank : Result CanonicalEvent → CanonicalEvent
event_or_blank (ok e) = e
event_or_blank (raised e) = blank

abbrev opened : CanonicalEvent
opened = event_or_blank (normalize_alert test_platform (alert_payload false))

abbrev closed : CanonicalEvent
closed = event_or_blank (normalize_alert test_platform (alert_payload true))

opened_runs : normalize_alert test_platform (alert_payload false) ≡ ok opened
unfolding normalize_alert get split_asset_id
    hpe_com_event_integratio.Core.Normalize.Severity.map_alert_severity as_text str
opened_runs = refl

closed_runs : normalize_alert test_platform (alert_payload true) ≡ ok closed
unfolding normalize_alert get split_asset_id
    hpe_com_event_integratio.Core.Normalize.Severity.map_alert_severity as_text str
closed_runs = refl

same_alert : opened.event_id ≡ closed.event_id
unfolding normalize_alert get get_or split_asset_id
    hpe_com_event_integratio.Core.Normalize.Severity.map_alert_severity as_text str lower
    hpe_com_event_integratio.Core.Normalize.Alert.headline hpe_com_event_integratio.Base.Text.prefix
    hpe_com_event_integratio.Base.Text.first_line
same_alert = refl

alert-IsOpen : IsOpen (alert_payload false)
unfolding get get_or lower
alert-IsOpen = (
  (bool false, refl, refl),
  (null, refl, refl),
  ("", refl, λ e. absurd (ground (arith, eq_iff "" "deleted", e))),
)

alert-IsOver : IsOver (alert_payload true)
unfolding get
alert-IsOver = inl (bool true, refl, refl)

normalize_alert-pair_example :
    (opened.action ≡ raise)
    × (closed.action ≡ clear)
    × (opened.correlation_key ≡ "alert:" <> opened.event_id)
    × (closed.correlation_key ≡ "alert:" <> opened.event_id)
    × (opened.dedup_key ≡ test_platform.sha1 (hashed_text opened "raise"))
    × (closed.dedup_key ≡ test_platform.sha1 (hashed_text closed "clear"))
    × (hashed_text opened "raise" ≢ hashed_text closed "clear")
normalize_alert-pair_example =
    normalize_alert-pair test_platform (alert_payload false) (alert_payload true) opened closed
      opened_runs closed_runs same_alert alert-IsOpen alert-IsOver

normalize_alert-to_pager_event_example :
    Asks (to_pager_event "r" "HPE" opened) ("alert:" <> opened.event_id) "trigger"
    × Asks (to_pager_event "r" "HPE" closed) ("alert:" <> opened.event_id) "resolve"
normalize_alert-to_pager_event_example =
    normalize_alert-to_pager_event "r" "HPE" test_platform (alert_payload false)
      (alert_payload true) opened closed opened_runs closed_runs same_alert alert-IsOpen
      alert-IsOver

degraded_normalizes : normalize test_platform degraded ≡ ok opened_events
unfolding normalize ends_with normalize_server get_or get_dict get split_asset_id
    hpe_com_event_integratio.Base.Text.has_char enabled_monitors split strip add_names add_condition
    lower evaluate hpe_com_event_integratio.Core.Normalize.Severity.map_health_severity as_text
    upper str
degraded_normalizes = refl

selector : enabled_monitors " power , health,POWER" ≡ ok (power ∷ health ∷ [])
unfolding enabled_monitors split strip add_names add_condition lower
selector = refl
