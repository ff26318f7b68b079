-- ===== src/Core/Adapters/Monitoring.antt =====
-- `DynatraceAdapter._to_event` (dynatrace.py) and `DatadogAdapter._to_event` (datadog.py).
use hpe_com_event_integratio.Base.{
  String, ◌<>◌, Bool, true, List, [], ◌∷◌, ◌++◌, not, if◌then◌else◌,
}
use hpe_com_event_integratio.Base.Text.{truthy, join}
use hpe_com_event_integratio.Python.{Json, text, array, Result, ok, ◌>>=◌, ◌or◌, is_truthy, str}
use hpe_com_event_integratio.Core.Event.{
  CanonicalEvent, Severity, normal, warning, minor, major, critical, severity_text, action_text,
}
use hpe_com_event_integratio.Core.Render.{
  Formats, analysis_text, greenlake_url, is_filled, is_empty, written, line_if,
}
use hpe_com_event_integratio.Core.Adapters.{
  Entries, dict, entry_if, optional, texts, is_clear, external_key, lines_if, description_lines,
  extra_pairs, as_entries, update,
}
use hpe_com_event_integratio.Core.Adapters.Alerts.{is_null}

-- `_ALERT_TYPE`
abbrev pub alert_type : Severity → String
alert_type critical = "error"
alert_type major = "error"
alert_type minor = "warning"
alert_type warning = "warning"
alert_type normal = "info"

-- The entries whose condition holds.
unfoldable pub present : List (Bool × String × Json) → Entries
present [] = []
present ((b, k, v) ∷ more) = let rest = present more in if b then (k, v) ∷ rest else rest

module _ (f : Formats) where
  -- The entries that `props` is updated with last, each with its condition.
  abbrev pub optional_properties : CanonicalEvent → List (Bool × String × Json)
  optional_properties e =
      (is_truthy e.resource_serial, "com.serial", e.resource_serial)
      ∷ (is_truthy e.resource_model, "com.model", e.resource_model)
      ∷ (is_filled e.mgmt_url, "com.ilo_url", optional e.mgmt_url)
      ∷ (true, "com.greenlake_url", text greenlake_url)
      ∷ (is_truthy e.description, "com.description", e.description)
      ∷ (is_truthy e.resolution, "com.resolution", e.resolution)
      ∷ (is_filled e.analysis_summary, "com.analysis_summary", optional e.analysis_summary)
      ∷ (is_filled e.analysis_root_cause, "com.analysis_root_cause", optional e.analysis_root_cause)
      ∷ (
        not (is_null e.analysis_confidence),
        "com.analysis_confidence",
        text (f.fixed2 e.analysis_confidence),
      )
      ∷ (
        not (is_empty e.analysis_actions),
        "com.analysis_actions",
        text (join " | " e.analysis_actions),
      )
      ∷ []

  abbrev pub com_properties : CanonicalEvent → Entries
  com_properties e =
      ("com.event_id", text e.event_id)
      ∷ ("com.operation", text e.operation)
      ∷ ("com.action", text (action_text e.action))
      ∷ ("com.severity", text (severity_text e.severity))
      ∷ ("com.correlation_key", text (external_key e))
      ∷ present (optional_properties e)

  -- The arguments are DYNATRACE_PROPERTIES and DYNATRACE_ENTITY_SELECTOR.
  unfoldable pub to_ingest : String → String → CanonicalEvent → Json
  to_ingest properties selector e = dict (
      ("eventType", text (if is_clear e.action then "CUSTOM_INFO" else "ERROR_EVENT"))
      ∷ ("title", e.title)
      ∷ ("properties", dict (update (as_entries (extra_pairs properties)) (com_properties e)))
      ∷ entry_if (truthy selector) "entitySelector" (text selector))

  abbrev opening_lines : CanonicalEvent → List String
  opening_lines e =
      ("COM operation "
        <> e.operation
        <> " on "
        <> str f.repr (e.resource_serial or text "unknown")
        <> " ("
        <> str f.repr (e.resource_model or text "unknown model")
        <> ").")
      ∷ ("Event id: " <> e.event_id)
      ∷ ("Severity: " <> severity_text e.severity)
      ∷ ("Action: " <> action_text e.action)
      ∷ []

  abbrev closing_lines : CanonicalEvent → List String
  closing_lines e =
      lines_if (is_truthy e.resolution)
        ("" ∷ ("Suggested resolution: " <> str f.repr e.resolution) ∷ [])
      ++ lines_if (is_filled e.mgmt_url) ("" ∷ ("iLO URL: " <> written e.mgmt_url) ∷ [])
      ++ ""
        ∷ ("HPE GreenLake URL: " <> greenlake_url)
        ∷ lines_if (truthy (analysis_text f e)) ("" ∷ analysis_text f e ∷ [])

  -- The argument holds the tags of DATADOG_TAGS.
  abbrev event_tags : List String → CanonicalEvent → List String
  event_tags tags e =
      tags
      ++ ("severity:" <> severity_text e.severity)
        ∷ line_if (is_truthy e.resource_serial) ("serial:" <> str f.repr e.resource_serial)
      ++ line_if (is_truthy e.resource_model) ("model:" <> str f.repr e.resource_model)

  unfoldable pub to_datadog_event : List String → CanonicalEvent → Result Json
  to_datadog_event tags e = do
    description ← description_lines ("" ∷ []) e.description
    ok (
        dict (
          ("title", e.title)
          ∷ ("text", text (join "\n" (opening_lines e ++ description ++ closing_lines e)))
          ∷ ("alert_type", text (if is_clear e.action then "success" else alert_type e.severity))
          ∷ ("aggregation_key", text (external_key e))
          ∷ ("source_type_name", text "hpe-com")
          ∷ ("tags", array (texts (event_tags tags e)))
          ∷ []))
