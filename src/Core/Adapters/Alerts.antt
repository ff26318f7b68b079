-- ===== src/Core/Adapters/Alerts.antt =====
-- `ObmAdapter._to_obm` (obm.py), `OpsRampAdapter._to_alert` (opsramp.py) and
-- `PagerDutyAdapter._to_event` (pagerduty.py).
use hpe_com_event_integratio.Base.{
  String, ◌<>◌, Bool, true, false, [], ◌∷◌, ◌++◌, not, if◌then◌else◌,
}
use hpe_com_event_integratio.Base.Text.{truthy}
use hpe_com_event_integratio.Python.{
  Json, null, text, array, Items, nil, cons, Result, ok, ◌>>=◌, ◌or◌, is_truthy, str,
}
use hpe_com_event_integratio.Core.Event.{
  CanonicalEvent, Severity, normal, warning, minor, major, critical, severity_text,
}
use hpe_com_event_integratio.Core.Render.{
  Formats, analysis_text, greenlake_url, is_filled, is_empty,
}
use hpe_com_event_integratio.Core.Adapters.{
  Entries, dict, entry_if, optional, texts, is_clear, external_key, tag_text, full_description,
}

module _ (f : Formats) where
  abbrev obm_description : CanonicalEvent → Json
  obm_description e =
      let description = e.description or text "" in
      let analysis = analysis_text f e in
      if truthy analysis
      then text
          (if is_truthy description then str f.repr description <> "\n\n" <> analysis else analysis)
      else description

  unfoldable pub to_obm : CanonicalEvent → Result Json
  to_obm e = do
    tags ← tag_text f e.tags
    ok (
        dict (
          ("title", e.title)
          ∷ ("severity", text (if is_clear e.action then "normal" else severity_text e.severity))
          ∷ ("lifecycle_state", text (if is_clear e.action then "closed" else "open"))
          ∷ ("related_ci", e.resource_serial)
          ∷ ("node", e.resource_model)
          ∷ ("mgmt_url", optional e.mgmt_url)
          ∷ ("greenlake_url", text greenlake_url)
          ∷ ("time_created", e.time_created)
          ∷ ("description", obm_description e)
          ∷ ("custom_attrs", text tags)
          ∷ ("dedup_key", text (external_key e))
          ∷ []))

  -- `_STATE` of opsramp.py
  abbrev pub ops_state : Severity → String
  ops_state critical = "Critical"
  ops_state major = "Critical"
  ops_state minor = "Warning"
  ops_state warning = "Warning"
  ops_state normal = "Ok"

  -- The argument is OPSRAMP_SERVICE_NAME.
  unfoldable pub to_alert : String → CanonicalEvent → Result Json
  to_alert service e = do
    description ← full_description f e (
        e.description
        or text (
            "COM operation "
            <> e.operation
            <> " on "
            <> str f.repr (e.resource_serial or text "unknown")
            <> " (event "
            <> e.event_id
            <> ")"))
    ok (
        dict (
          ("serviceName", text service)
          ∷ (
            "device",
            dict (
                ("hostName", e.resource_serial or e.resource_model or text "unknown")
                ∷ ("resourceName", e.resource_serial or text "")
                ∷ []),
          )
          ∷ ("currentState", text (if is_clear e.action then "Ok" else ops_state e.severity))
          ∷ ("alertKey", text (external_key e))
          ∷ ("component", e.resource_model or text "")
          ∷ ("subject", e.title)
          ∷ ("description", description)
          ∷ ("app", text "HPE COM")
          ∷ ("alertTime", e.time_created or text "")
          ∷ []))

-- `_SEVERITY` of pagerduty.py
abbrev pub pager_severity : Severity → String
pager_severity critical = "critical"
pager_severity major = "error"
pager_severity minor = "warning"
pager_severity warning = "warning"
pager_severity normal = "info"

abbrev pub is_null : Json → Bool
is_null null = true
is_null _ = false

abbrev pub custom_details : CanonicalEvent → Entries
custom_details e =
    ("event_id", text e.event_id)
      ∷ ("operation", text e.operation)
      ∷ ("serial", e.resource_serial)
      ∷ ("model", e.resource_model)
      ∷ ("correlation_key", text e.correlation_key)
      ∷ entry_if (is_truthy e.description) "description" e.description
    ++ entry_if (is_truthy e.resolution) "resolution" e.resolution
    ++ entry_if (is_filled e.analysis_summary) "analysis_summary" (optional e.analysis_summary)
    ++ entry_if (is_filled e.analysis_root_cause) "analysis_root_cause"
        (optional e.analysis_root_cause)
    ++ entry_if (not (is_null e.analysis_confidence)) "analysis_confidence" e.analysis_confidence
    ++ entry_if (not (is_empty e.analysis_actions)) "analysis_actions"
        (array (texts e.analysis_actions))

abbrev link : Json → String → Json
link href label = dict (("href", href) ∷ ("text", text label) ∷ [])

abbrev links : CanonicalEvent → Items
links e =
    let console = cons (link (text greenlake_url) "Open HPE GreenLake") nil in
    if is_filled e.mgmt_url then cons (link (optional e.mgmt_url) "Open iLO") console else console

abbrev pub trigger_entries : String → CanonicalEvent → Entries
trigger_entries source e =
    (
      "payload",
      dict (
          ("summary", e.title)
          ∷ ("source", e.resource_serial or text source)
          ∷ ("severity", text (pager_severity e.severity))
          ∷ ("component", e.resource_model or text "")
          ∷ ("group", text source)
          ∷ ("timestamp", e.time_created or null)
          ∷ ("custom_details", dict (custom_details e))
          ∷ []),
    )
    ∷ ("links", array (links e))
    ∷ []

-- The arguments are PAGERDUTY_ROUTING_KEY and PAGERDUTY_SOURCE.
unfoldable pub to_pager_event : String → String → CanonicalEvent → Json
to_pager_event routing_key source e = dict (
    ("routing_key", text routing_key)
    ∷ ("event_action", text (if is_clear e.action then "resolve" else "trigger"))
    ∷ ("dedup_key", text (external_key e))
    ∷ (if is_clear e.action then [] else trigger_entries source e))
