-- ===== src/Tests/Targets.antt =====
-- A problem and its recovery, as the targets are sent them.
use hpe_com_event_integratio.Base.{
  String, ◌<>◌, Bool, true, false, List, [], ◌∷◌, not, ◌≡◌, ◌≢◌, refl, some, ◌==◌, if◌then◌else◌,
  truthy,
}
use hpe_com_event_integratio.Base.Text.{join}
use hpe_com_event_integratio.Python.{Json, null, text, object, field, end, Result, ok, raised}
use hpe_com_event_integratio.Core.Event.{CanonicalEvent, blank, clear, normal, major}
use hpe_com_event_integratio.Core.Render.{
  Formats, heading, is_empty, has_analysis, analysis_lines, analysis_text,
}
use hpe_com_event_integratio.Core.Adapters.{external_key}
use hpe_com_event_integratio.Core.Adapters.Alerts.{to_obm, to_alert}
use hpe_com_event_integratio.Core.Adapters.Incidents.{to_snow_event}
use hpe_com_event_integratio.Core.Adapters.Monitoring.{to_datadog_event}
use hpe_com_event_integratio.Core.Adapters.Closing.{IsPair}

abbrev formats : Formats
formats = record { repr = λ j. "{}"; percent = λ j. "80%"; fixed2 = λ j. "0.80" }

abbrev problem : CanonicalEvent
problem = record blank {
  event_id = "e1";
  title = text "Fan failed";
  severity = major;
  tags = object (field "site" (text "Lyon") end);
  dedup_key = "d1";
  correlation_key = "alert:e1";
  analysis_summary = some "A fan stopped.";
  analysis_actions = "Replace it" ∷ [];
}

abbrev recovery : CanonicalEvent
recovery = record problem { action = clear; dedup_key = "d2" }

problem-IsPair : IsPair problem recovery
problem-IsPair = record { keyed = refl; same_key = refl; raises = refl; clears = refl }

major-ne_normal : problem.severity ≢ normal
major-ne_normal same = cc

abbrev document : Result Json → Json
document (ok j) = j
document (raised e) = null

analysis_rendered :
    analysis_text formats problem
    ≡ join "\n" (heading ∷ "A fan stopped." ∷ "" ∷ "Recommended actions:" ∷ "1. Replace it" ∷ [])
unfolding analysis_text join analysis_lines has_analysis
    hpe_com_event_integratio.Core.Render.numbered hpe_com_event_integratio.Base.Text.decimal
analysis_rendered = refl

abbrev obm_problem : Json
obm_problem = document (to_obm formats problem)

obm_problem_runs : to_obm formats problem ≡ ok obm_problem
unfolding to_obm hpe_com_event_integratio.Core.Adapters.tag_text
obm_problem_runs = refl

abbrev obm_recovery : Json
obm_recovery = document (to_obm formats recovery)

obm_recovery_runs : to_obm formats recovery ≡ ok obm_recovery
unfolding to_obm hpe_com_event_integratio.Core.Adapters.tag_text
obm_recovery_runs = refl

abbrev snow_problem : Json
snow_problem = document (to_snow_event formats problem)

snow_problem_runs : to_snow_event formats problem ≡ ok snow_problem
unfolding to_snow_event hpe_com_event_integratio.Core.Adapters.full_description
    hpe_com_event_integratio.Core.Adapters.with_url
    hpe_com_event_integratio.Core.Adapters.append_text
    hpe_com_event_integratio.Core.Adapters.with_analysis analysis_text analysis_lines has_analysis
    join hpe_com_event_integratio.Core.Render.numbered hpe_com_event_integratio.Base.Text.decimal
    hpe_com_event_integratio.Core.Adapters.tag_text
snow_problem_runs = refl

abbrev snow_recovery : Json
snow_recovery = document (to_snow_event formats recovery)

snow_recovery_runs : to_snow_event formats recovery ≡ ok snow_recovery
unfolding to_snow_event hpe_com_event_integratio.Core.Adapters.full_description
    hpe_com_event_integratio.Core.Adapters.with_url
    hpe_com_event_integratio.Core.Adapters.append_text
    hpe_com_event_integratio.Core.Adapters.with_analysis analysis_text analysis_lines has_analysis
    join hpe_com_event_integratio.Core.Render.numbered hpe_com_event_integratio.Base.Text.decimal
    hpe_com_event_integratio.Core.Adapters.tag_text
snow_recovery_runs = refl

abbrev ops_problem : Json
ops_problem = document (to_alert formats "HPE COM" problem)

ops_problem_runs : to_alert formats "HPE COM" problem ≡ ok ops_problem
unfolding to_alert hpe_com_event_integratio.Core.Adapters.full_description
    hpe_com_event_integratio.Core.Adapters.with_url
    hpe_com_event_integratio.Core.Adapters.append_text
    hpe_com_event_integratio.Core.Adapters.with_analysis analysis_text analysis_lines has_analysis
    join hpe_com_event_integratio.Core.Render.numbered hpe_com_event_integratio.Base.Text.decimal
ops_problem_runs = refl

abbrev ops_recovery : Json
ops_recovery = document (to_alert formats "HPE COM" recovery)

ops_recovery_runs : to_alert formats "HPE COM" recovery ≡ ok ops_recovery
unfolding to_alert hpe_com_event_integratio.Core.Adapters.full_description
    hpe_com_event_integratio.Core.Adapters.with_url
    hpe_com_event_integratio.Core.Adapters.append_text
    hpe_com_event_integratio.Core.Adapters.with_analysis analysis_text analysis_lines has_analysis
    join hpe_com_event_integratio.Core.Render.numbered hpe_com_event_integratio.Base.Text.decimal
ops_recovery_runs = refl

abbrev datadog_problem : Json
datadog_problem = document (to_datadog_event formats [] problem)

datadog_problem_runs : to_datadog_event formats [] problem ≡ ok datadog_problem
unfolding to_datadog_event hpe_com_event_integratio.Core.Adapters.description_lines
datadog_problem_runs = refl

abbrev datadog_recovery : Json
datadog_recovery = document (to_datadog_event formats [] recovery)

datadog_recovery_runs : to_datadog_event formats [] recovery ≡ ok datadog_recovery
unfolding to_datadog_event hpe_com_event_integratio.Core.Adapters.description_lines
datadog_recovery_runs = refl
