-- ===== src/Core/Adapters/Records.antt =====
-- The adapters that send an event as a record: splunk.py, elastic.py, sentinel.py, grafana.py and
-- webhook.py.
use hpe_com_event_integratio.Base.{String, [], ◌∷◌, ◌++◌, Option, none, some, not}
use hpe_com_event_integratio.Base.Text.{join}
use hpe_com_event_integratio.Python.{Json, text, array, is_truthy}
use hpe_com_event_integratio.Core.Event.{
  CanonicalEvent, severity_text, action_text, source_type_text,
}
use hpe_com_event_integratio.Core.Render.{greenlake_url, is_filled, is_empty, numbered}
use hpe_com_event_integratio.Core.Adapters.{
  Entries, dict, entry_if, optional, texts, items, external_key, extra_pairs, as_entries, update,
}

-- The first keys of all records.
abbrev head : CanonicalEvent → Entries
head e =
    ("event_id", text e.event_id)
    ∷ ("operation", text e.operation)
    ∷ ("action", text (action_text e.action))
    ∷ ("title", e.title)
    ∷ ("severity", text (severity_text e.severity))
    ∷ ("serial", e.resource_serial)
    ∷ ("model", e.resource_model)
    ∷ ("mgmt_url", optional e.mgmt_url)
    ∷ ("greenlake_url", text greenlake_url)
    ∷ []

abbrev scalar_analysis : CanonicalEvent → Entries
scalar_analysis e =
    ("analysis_summary", optional e.analysis_summary)
    ∷ ("analysis_root_cause", optional e.analysis_root_cause)
    ∷ ("analysis_confidence", e.analysis_confidence)
    ∷ []

abbrev analysis : CanonicalEvent → Entries
analysis e = scalar_analysis e ++ ("analysis_actions", array (texts e.analysis_actions)) ∷ []

abbrev text_of_index : Option String → String
text_of_index none = ""
text_of_index (some s) = s

-- SPLUNK_SOURCE, SPLUNK_SOURCETYPE and SPLUNK_INDEX.
unfoldable pub to_hec : String → String → Option String → CanonicalEvent → Json
to_hec source sourcetype index e = dict (
    ("source", text source)
    ∷ ("sourcetype", text sourcetype)
    ∷ (
      "event",
      dict (
          head e
          ++ ("time_created", e.time_created)
            ∷ ("tags", e.tags)
            ∷ ("dedup_key", text e.dedup_key)
            ∷ ("correlation_key", text e.correlation_key)
            ∷ ("description", e.description)
            ∷ ("resolution", e.resolution)
            ∷ analysis e),
    )
    ∷ entry_if (is_filled index) "index" (text (text_of_index index)))

unfoldable pub to_doc : CanonicalEvent → Json
to_doc e = dict (
    ("@timestamp", e.time_created) ∷ head e
    ++ ("correlation_key", text e.correlation_key)
      ∷ ("dedup_key", text e.dedup_key)
      ∷ ("description", e.description)
      ∷ ("resolution", e.resolution)
      ∷ ("category", e.category)
      ∷ ("tags", e.tags)
      ∷ analysis e
    ++ ("advisory_references", array (items e.advisory_references)) ∷ [])

unfoldable pub to_record : CanonicalEvent → Json
to_record e = dict (
    head e
    ++ ("time_created", e.time_created)
      ∷ ("correlation_key", text e.correlation_key)
      ∷ ("dedup_key", text e.dedup_key)
      ∷ ("description", e.description)
      ∷ ("resolution", e.resolution)
      ∷ ("category", e.category)
      ∷ scalar_analysis e
    ++ entry_if (not (is_empty e.analysis_actions)) "analysis_actions"
        (text (join "; " (numbered 1 e.analysis_actions))))

-- `_labels`; the argument is GRAFANA_LABELS.
unfoldable pub labels : String → CanonicalEvent → Json
labels extra e = dict (
    update
      (("source", text "hpe-com")
        ∷ ("severity", text (severity_text e.severity))
        ∷ ("action", text (action_text e.action))
        ∷ entry_if (is_truthy e.category) "category" e.category)
      (as_entries (extra_pairs extra)))

-- What `_line` gives to `json.dumps`.
unfoldable pub log_record : CanonicalEvent → Json
log_record e = dict (
    head e
    ++ ("correlation_key", text (external_key e))
      ∷ ("dedup_key", text e.dedup_key)
      ∷ ("description", e.description)
      ∷ ("resolution", e.resolution)
      ∷ ("category", e.category)
      ∷ ("tags", e.tags)
      ∷ analysis e)

-- `dataclasses.asdict(event)`, with the link.
unfoldable pub webhook_body : CanonicalEvent → Json
webhook_body e = dict (
    ("event_id", text e.event_id)
      ∷ ("operation", text e.operation)
      ∷ ("title", e.title)
      ∷ ("severity", text (severity_text e.severity))
      ∷ ("resource_serial", e.resource_serial)
      ∷ ("resource_model", e.resource_model)
      ∷ ("mgmt_url", optional e.mgmt_url)
      ∷ ("time_created", e.time_created)
      ∷ ("tags", e.tags)
      ∷ ("dedup_key", text e.dedup_key)
      ∷ ("raw", e.raw)
      ∷ ("source_type", text (source_type_text e.source_type))
      ∷ ("action", text (action_text e.action))
      ∷ ("correlation_key", text e.correlation_key)
      ∷ ("resource_name", e.resource_name)
      ∷ ("part_number", e.part_number)
      ∷ ("description", e.description)
      ∷ ("resolution", e.resolution)
      ∷ ("category", e.category)
      ∷ analysis e
    ++ ("advisory_references", array (items e.advisory_references))
      ∷ ("advisory_evidence", e.advisory_evidence)
      ∷ ("greenlake_url", text greenlake_url)
      ∷ [])
