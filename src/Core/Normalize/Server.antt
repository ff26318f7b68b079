-- ===== src/Core/Normalize/Server.antt =====
-- `_normalize_server` of normalize.py.
use hpe_com_event_integratio.Base.{String, ◌<>◌, List, [], ◌∷◌, Option, none, some, if◌then◌else◌}
use hpe_com_event_integratio.Python.{
  Json, text, object, end, Result, ok, ◌>>=◌, ◌or◌, is_truthy, get, get_or, get_dict, str,
}
use hpe_com_event_integratio.Core.Event.{
  CanonicalEvent, blank, raise, clear, action_text, severity_text, server,
}
use hpe_com_event_integratio.Core.Normalize.Environment.{Platform, dedup_hash}
use hpe_com_event_integratio.Core.Normalize.AssetId.{split_asset_id}
use hpe_com_event_integratio.Core.Normalize.Monitors.{Condition, condition_name, enabled_monitors}
use hpe_com_event_integratio.Core.Normalize.Conditions.{CondResult, evaluate}

-- What the loop over the conditions reads of the snapshot.
pub record Snapshot : Type 0 where
  pub event_id : String
  pub operation : String
  pub name : Json
  pub serial : Json
  pub model : Json
  pub bmc : Json
  pub time_created : Json
  pub tags : Json
  pub resource_name : Json
  pub part_number : Json
  pub key_base : String

-- `f"https://{ip}" if ip else None`
abbrev pub url_of : (Json → String) → Json → Option String
url_of repr ip = if is_truthy ip then some ("https://" <> str repr ip) else none

module _ (p : Platform) where
  unfoldable pub read_snapshot : Json → Result Snapshot
  read_snapshot payload = do
    hw ← get_dict payload "hardware"
    bmc ← get_dict hw "bmc"
    id ← get payload "id"
    ids ← split_asset_id id
    own_serial ← get hw "serialNumber"
    product ← get hw "productId"
    name ← get payload "name"
    operation ← get_or payload "operation" (text "Updated")
    model ← get hw "model"
    updated ← get payload "updatedAt"
    tags ← get_or payload "tags" (object end)
    event_id ← get_or payload "id" (text "")
    let serial = own_serial or ids.1
    ok (record {
      event_id = str p.repr event_id;
      operation = str p.repr (operation or text "Updated");
      name = name or serial or text "server";
      serial = serial;
      model = model;
      bmc = bmc;
      time_created = updated;
      tags = tags or object end;
      resource_name = name;
      part_number = product or ids.0;
      key_base = "server:" <> str p.repr (serial or id);
    })

  -- The event of one condition; `ip` is that of the snapshot's management controller.
  unfoldable pub server_event : Json → Snapshot → Condition → CondResult → Json → CanonicalEvent
  server_event payload s cond res ip =
      let action = if res.is_problem then raise else clear in
      let correlation_key = s.key_base <> ":" <> condition_name cond in
      record blank {
        event_id = s.event_id;
        operation = s.operation;
        title = text res.title;
        severity = res.severity;
        resource_serial = s.serial;
        resource_model = s.model;
        mgmt_url = url_of p.repr ip;
        time_created = s.time_created;
        tags = s.tags;
        dedup_key =
            dedup_hash p (correlation_key ∷ action_text action ∷ severity_text res.severity ∷ []);
        raw = payload;
        source_type = server;
        action = action;
        correlation_key = correlation_key;
        resource_name = s.resource_name;
        part_number = s.part_number;
        description = text res.description;
        category = text res.category;
      }

  unfoldable pub server_events : Json → Snapshot → List Condition → Result (List CanonicalEvent)
  unfolding server_event
  server_events payload s [] = ok []
  server_events payload s (cond ∷ conds) = do
    res ← evaluate p cond payload s.name
    ip ← get s.bmc "ip"
    rest ← server_events payload s conds
    ok (server_event payload s cond res ip ∷ rest)

  unfoldable pub normalize_server : Json → Result (List CanonicalEvent)
  unfolding read_snapshot server_events
  normalize_server payload = do
    s ← read_snapshot payload
    conds ← enabled_monitors p.server_monitors
    server_events payload s conds
