-- ===== src/Core/Normalize/Severity.antt =====
-- `_map_health_severity` and `_map_alert_severity` of normalize.py.
use hpe_com_event_integratio.Base.{String, ◌==◌, ◌||◌, if◌then◌else◌}
use hpe_com_event_integratio.Base.Text.{upper}
use hpe_com_event_integratio.Python.{Json, text, Result, ok, ◌>>=◌, ◌or◌, as_text}
use hpe_com_event_integratio.Core.Event.{Severity, normal, warning, minor, critical}

unfoldable pub health_table : String → Severity
health_table s =
    if s == "OK"
    then normal
    else if s == "WARNING"
    then minor
    else if s == "CRITICAL"
    then critical
    else warning

unfoldable pub alert_table : String → Severity
alert_table s =
    if s == "CRITICAL"
    then critical
    else if s == "WARNING"
    then warning
    else if s == "OK" || s == "INFO" || s == "INFORMATIONAL"
    then normal
    else warning

unfoldable pub map_health_severity : Json → Result Severity
unfolding health_table
map_health_severity summary = do s ← as_text (summary or text ""); ok (health_table (upper s))

unfoldable pub map_alert_severity : Json → Result Severity
unfolding alert_table
map_alert_severity severity = do s ← as_text (severity or text ""); ok (alert_table (upper s))
