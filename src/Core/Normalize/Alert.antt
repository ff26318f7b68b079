-- ===== src/Core/Normalize/Alert.antt =====
-- `_normalize_alert` of normalize.py.
use hpe_com_event_integratio.Base.{String, ◌<>◌, [], ◌∷◌, ◌==◌, ◌||◌, if◌then◌else◌}
use hpe_com_event_integratio.Base.Text.{truthy, lower, first_line, prefix}
use hpe_com_event_integratio.Python.{
  Json, text, object, end, Result, ok, raised, index_error, ◌>>=◌, ◌or◌, is_truthy, get, get_or,
  str,
}
use hpe_com_event_integratio.Core.Event.{
  CanonicalEvent, blank, Action, raise, clear, action_text, severity_text, alert,
}
use hpe_com_event_integratio.Core.Normalize.Environment.{Platform, dedup_hash}
use hpe_com_event_integratio.Core.Normalize.AssetId.{split_asset_id}
use hpe_com_event_integratio.Core.Normalize.Severity.{map_alert_severity}

-- `device if isinstance(device, dict) else {}`
abbrev pub dict_or_empty : Json → Json
dict_or_empty (object fs) = object fs
dict_or_empty _ = object end

-- `s.splitlines()[0][:200]`
unfoldable pub headline : String → Result String
headline s = if truthy s then ok (prefix 200 (first_line s)) else raised index_error

-- Cleared, or deleted: a recovery, whatever the severity.
abbrev pub alert_action : Json → Json → String → Action
alert_action cleared cleared_at operation =
    if is_truthy cleared || is_truthy cleared_at || lower operation == "deleted"
    then clear
    else raise

abbrev default_operation : Action → String
default_operation clear = "Deleted"
default_operation raise = "Created"

unfoldable pub normalize_alert : Platform → Json → Result CanonicalEvent
unfolding headline
normalize_alert p payload = do
  device ← get payload "device"
  device_id ← get (dict_or_empty device) "id"
  ids ← split_asset_id device_id
  reported ← get payload "severity"
  severity ← map_alert_severity reported
  cleared ← get payload "cleared"
  cleared_at ← get payload "clearedAt"
  op ← get_or payload "operation" (text "")
  let operation = str p.repr (op or text "")
  let action = alert_action cleared cleared_at operation
  id ← get_or payload "id" (text "")
  let alert_id = str p.repr id
  let correlation_key = "alert:" <> alert_id
  description ← get payload "description"
  message_id ← get payload "messageId"
  title ← headline (str p.repr (description or message_id or text "COM alert"))
  created ← get payload "createdAt"
  resolution ← get payload "resolution"
  category ← get payload "category"
  alert_type ← get payload "alertType"
  ok (record blank {
    event_id = alert_id;
    operation = if truthy operation then operation else default_operation action;
    title = text title;
    severity = severity;
    resource_serial = ids.1;
    time_created = created;
    dedup_key = dedup_hash p (correlation_key ∷ action_text action ∷ severity_text severity ∷ []);
    raw = payload;
    source_type = alert;
    action = action;
    correlation_key = correlation_key;
    resource_name = ids.1;
    part_number = ids.0;
    description = description;
    resolution = resolution;
    category = category or alert_type;
  })
