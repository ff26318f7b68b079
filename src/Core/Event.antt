-- ===== src/Core/Event.antt =====
-- `CanonicalEvent` of com-event-core/com_event_core/normalize.py. A field that the source fills from
-- a payload as it comes is a `Json`; a field that it builds as a text is a `String`.
use hpe_com_event_integratio.Base.{String, Option, none, List, []}
use hpe_com_event_integratio.Python.{Json, null, object, end}

pub data Severity : Type 0 where
  normal warning minor major critical : Severity

-- The constants `SEVERITY_NORMAL` and so on.
abbrev pub severity_text : Severity → String
severity_text normal = "normal"
severity_text warning = "warning"
severity_text minor = "minor"
severity_text major = "major"
severity_text critical = "critical"

pub data Action : Type 0 where
  raise clear : Action

abbrev pub action_text : Action → String
action_text raise = "raise"
action_text clear = "clear"

pub data SourceType : Type 0 where
  server alert generic : SourceType

abbrev pub source_type_text : SourceType → String
source_type_text server = "server"
source_type_text alert = "alert"
source_type_text generic = "generic"

pub record CanonicalEvent : Type 0 where
  pub event_id : String
  pub operation : String
  pub title : Json
  pub severity : Severity
  pub resource_serial : Json
  pub resource_model : Json
  pub mgmt_url : Option String
  pub time_created : Json
  pub tags : Json
  pub dedup_key : String
  pub raw : Json
  pub source_type : SourceType
  pub action : Action
  pub correlation_key : String
  pub resource_name : Json
  pub part_number : Json
  pub description : Json
  pub resolution : Json
  pub category : Json
  pub analysis_summary : Option String
  pub analysis_root_cause : Option String
  pub analysis_confidence : Json
  pub analysis_actions : List String
  pub advisory_references : List Json
  pub advisory_evidence : Json

-- The defaults of the fields, and empty values for those that have none.
abbrev pub blank : CanonicalEvent
blank = record {
  event_id = "";
  operation = "";
  title = null;
  severity = normal;
  resource_serial = null;
  resource_model = null;
  mgmt_url = none;
  time_created = null;
  tags = object end;
  dedup_key = "";
  raw = object end;
  source_type = generic;
  action = raise;
  correlation_key = "";
  resource_name = null;
  part_number = null;
  description = null;
  resolution = null;
  category = null;
  analysis_summary = none;
  analysis_root_cause = none;
  analysis_confidence = null;
  analysis_actions = [];
  advisory_references = [];
  advisory_evidence = null;
}
