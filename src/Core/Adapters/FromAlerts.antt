-- ===== src/Core/Adapters/FromAlerts.antt =====
-- From COM's alerts to the targets.
use hpe_com_event_integratio.Base.{
  String, ◌<>◌, true, ◌≡◌, ◌≢◌, ◌∙◌, ap, arith, eq_iff, if◌then◌else◌,
}
use hpe_com_event_integratio.Base.Text.{truthy}
use hpe_com_event_integratio.Base.TextLaws.{append_ne_nil}
use hpe_com_event_integratio.Python.{Json, text, ok, get}
use hpe_com_event_integratio.Core.Event.{CanonicalEvent, Action, raise, clear}
use hpe_com_event_integratio.Core.Normalize.Environment.{Platform}
use hpe_com_event_integratio.Core.Normalize.Alert.{normalize_alert}
use hpe_com_event_integratio.Core.Normalize.Pairs.{IsOpen, IsOver, normalize_alert-pair}
use hpe_com_event_integratio.Core.Adapters.Closing.{pager-entries, keyed-external_key}
use hpe_com_event_integratio.Core.Adapters.{is_clear}
use hpe_com_event_integratio.Core.Adapters.Alerts.{to_pager_event}

truthy-ne_nil : (s : String) → s ≢ "" → truthy s ≡ true
truthy-ne_nil s n = ground (arith, eq_iff s "")

alert_key-truthy : (id : String) → truthy ("alert:" <> id) ≡ true
alert_key-truthy id = truthy-ne_nil ("alert:" <> id) (append_ne_nil "a" "lert:" id)

-- A PagerDuty event document with that key and that action.
abbrev pub Asks : Json → String → String → Type 0
Asks a key action = (get a "dedup_key" ≡ ok (text key)) × (get a "event_action" ≡ ok (text action))

pager-Asks :
    (routing_key source key : String) (e : CanonicalEvent) (action : Action)
    → truthy key ≡ true
    → e.correlation_key ≡ key
    → e.action ≡ action
    → Asks
        (to_pager_event routing_key source e)
        key
        (if is_clear action then "resolve" else "trigger")
pager-Asks routing_key source key e action t k h =
    let (sent, asked) = pager-entries routing_key source e action h in
    (sent ∙ ap (λ (s : String). ok (text s)) (keyed-external_key e (ap truthy k ∙ t) ∙ k), asked)

-- From COM to PagerDuty: for the payload of an open alert PagerDuty is asked to trigger an incident
-- under the key made of the alert's id, and for a later payload that says the alert is over, to
-- resolve the incident of that very key.
pub normalize_alert-to_pager_event :
    (routing_key source : String) (p : Platform) (opened closed : Json) (e c : CanonicalEvent)
    → normalize_alert p opened ≡ ok e
    → normalize_alert p closed ≡ ok c
    → e.event_id ≡ c.event_id
    → IsOpen opened
    → IsOver closed
    → Asks (to_pager_event routing_key source e) ("alert:" <> e.event_id) "trigger"
      × Asks (to_pager_event routing_key source c) ("alert:" <> e.event_id) "resolve"
normalize_alert-to_pager_event routing_key source p opened closed e c h k same up down =
    let (raises, clears, one, two, texts, texts', differ) =
      normalize_alert-pair p opened closed e c h k same up down in
    let keyed = alert_key-truthy e.event_id in
    (
      pager-Asks routing_key source ("alert:" <> e.event_id) e raise keyed one raises,
      pager-Asks routing_key source ("alert:" <> e.event_id) c clear keyed two clears,
    )
