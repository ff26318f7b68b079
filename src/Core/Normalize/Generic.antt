-- ===== src/Core/Normalize/Generic.antt =====
-- `_normalize_generic` of normalize.py.
use hpe_com_event_integratio.Base.{◌<>◌, [], ◌∷◌}
use hpe_com_event_integratio.Python.{
  Json, text, object, end, Result, ok, ◌>>=◌, ◌or◌, get, get_or, get_dict, str,
}
use hpe_com_event_integratio.Core.Event.{CanonicalEvent, blank, generic, raise}
use hpe_com_event_integratio.Core.Normalize.Environment.{Platform, dedup_hash}
use hpe_com_event_integratio.Core.Normalize.AssetId.{split_asset_id, text_or_none}
use hpe_com_event_integratio.Core.Normalize.Severity.{map_health_severity}
use hpe_com_event_integratio.Core.Normalize.Server.{url_of}

unfoldable pub normalize_generic : Platform → Json → Result CanonicalEvent
normalize_generic p payload = do
  hw ← get_dict payload "hardware"
  bmc ← get_dict hw "bmc"
  id_text ← get_or payload "id" (text "")
  op ← get_or payload "operation" (text "")
  id ← get payload "id"
  ids ← split_asset_id id
  name ← get payload "name"
  health ← get_dict hw "health"
  summary ← get health "summary"
  severity ← map_health_severity summary
  own_serial ← get hw "serialNumber"
  model ← get hw "model"
  ip ← get bmc "ip"
  updated ← get payload "updatedAt"
  created ← get payload "createdAt"
  tags ← get_or payload "tags" (object end)
  product ← get hw "productId"
  ptype ← get_or payload "type" (text "")
  let event_id = str p.repr id_text
  let operation = str p.repr (op or text "")
  let correlation_key = "generic:" <> event_id
  ok (record blank {
    event_id = event_id;
    operation = operation;
    title = name or text "COM event";
    severity = severity;
    resource_serial = own_serial or ids.1;
    resource_model = model;
    mgmt_url = url_of p.repr ip;
    time_created = updated or created;
    tags = tags or object end;
    dedup_key = dedup_hash p (correlation_key ∷ operation ∷ []);
    raw = payload;
    source_type = generic;
    action = raise;
    correlation_key = correlation_key;
    resource_name = name;
    part_number = product or ids.0;
    category = text_or_none (str p.repr ptype);
  })
