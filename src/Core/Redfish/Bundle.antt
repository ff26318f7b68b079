-- ===== src/Core/Redfish/Bundle.antt =====
-- com-event-core/com_event_core/enrich/redfish.py: `collect_evidence`.
use hpe_com_event_integratio.Base.{
  ℕ, String, ◌<>◌, List, [], ◌∷◌, ◌++◌, Option, none, some, truthy, length, not, nat_eq,
  if◌then◌else◌,
}
use hpe_com_event_integratio.Base.Text.{split, strip, decimal}
use hpe_com_event_integratio.Python.{
  Json, number, text, array, object, Fields, field, end, Result, ok, raised,
}
use hpe_com_event_integratio.Core.Secrets.{Host, text_of}
use hpe_com_event_integratio.Core.Com.{Step, ◌>>=◌, lift}
use hpe_com_event_integratio.Core.Redfish.Sensors.{items_of}
use hpe_com_event_integratio.Core.Redfish.Log.{LogRead, read_log}
use hpe_com_event_integratio.Core.Redfish.Members.{Summary, collect_unhealthy_members}
use hpe_com_event_integratio.Core.Redfish.{
  Ilo, Evidence, new_evidence, redfish_client, RedfishClient, fetch, note, collect_resources,
  discover_storage_paths,
}

abbrev base_paths : List String
base_paths =
    "/redfish/v1/Systems/1" ∷ "/redfish/v1/Chassis/1/Thermal" ∷ "/redfish/v1/Chassis/1/Power" ∷ []

abbrev log_path : String
log_path = "/redfish/v1/Systems/1/LogServices/IML/Entries"

-- ILO_EXTRA_PATHS, at the commas.
unfoldable pub extra_paths : List String → List String
unfolding strip
extra_paths [] = []
extra_paths (p ∷ ps) =
    let rest = extra_paths ps in if truthy (strip p) then strip p ∷ rest else rest

abbrev natural : ℕ → Json
natural n = number (not (nat_eq n 0)) (decimal n)

abbrev summary_json : Summary → Json
summary_json s = object (
    field "collection" (text s.collection) (
      field "total_members" (natural s.total_members) (
        field "inspected" (natural s.inspected) (
          field "unhealthy_count" (natural (length s.unhealthy))
            (field "unhealthy" (array (items_of s.unhealthy)) end)))))

summaries_json : List Summary → List Json
unfolding decimal
summaries_json [] = []
summaries_json (s ∷ ss) = summary_json s ∷ summaries_json ss

texts_json : List String → List Json
texts_json [] = []
texts_json (s ∷ ss) = text s ∷ texts_json ss

fields_of : List (String × Json) → Fields
fields_of [] = end
fields_of ((k, j) ∷ d) = field k j (fields_of d)

abbrev log_json : ℕ → LogRead → Json
log_json max_log l = object (
    field "path" (text log_path) (
      field "total_entries" (natural l.total) (
        field "returned" (natural (length l.entries)) (
          field "filter" (text ("non-OK severity only, most recent " <> decimal max_log))
            (field "entries" (array (items_of l.entries)) end)))))

-- The bundle as it goes to the analyzer.
abbrev bundle_json : String → ℕ → List Summary → LogRead → Evidence → Json
bundle_json mgmt_url max_log components l s = object (
    field "source" (text mgmt_url) (
      field "resources" (object (fields_of s.resources)) (
        field "notes" (array (items_of (texts_json s.notes))) (
          field "trimmed" (array (items_of (texts_json s.trimmed))) (
            field "components" (array (items_of (summaries_json components)))
              (field "log" (log_json max_log l) end))))))

module _ (i : Ilo) (max_log max_members : ℕ) where
  abbrev keep_summary : String → Option Summary → List Summary → Step Evidence (List Summary)
  keep_summary path none components =
      note i (path <> " not present on this iLO") >>= λ _. lift (ok components)
  keep_summary path (some summary) components = lift (ok (components ++ summary ∷ []))

  -- The second loop.
  unfoldable pub collect_components : List String → List Summary → Step Evidence (List Summary)
  unfolding collect_unhealthy_members note
  collect_components [] components = lift (ok components)
  collect_components (path ∷ paths) components = do
    summary ← collect_unhealthy_members i path max_members
    kept ← keep_summary path summary components
    collect_components paths kept

  abbrev with_state : String → List Summary → LogRead → Step Evidence Json
  with_state mgmt_url components l s = (ok (bundle_json mgmt_url max_log components l s), s)

  -- `_collect_log`
  unfoldable pub collect_log : Step Evidence LogRead
  unfolding fetch read_log
  collect_log = do collection ← fetch i log_path; lift (read_log i.numbers max_log collection)

  -- What `collect_evidence` does with the client.
  unfoldable pub collect : String → List String → Step Evidence Json
  unfolding collect_resources discover_storage_paths collect_components collect_log summaries_json
      texts_json fields_of decimal
  collect mgmt_url extra = do
    _ ← collect_resources i (base_paths ++ extra)
    storage_paths ← discover_storage_paths i
    components ← collect_components ("/redfish/v1/Systems/1/Memory" ∷ storage_paths) []
    l ← collect_log
    with_state mgmt_url components l

  abbrev collect_if : Host → String → Result RedfishClient → Result Json
  collect_if h mgmt_url (raised e) = raised e
  collect_if h mgmt_url (ok client) =
      (collect mgmt_url (extra_paths (split b',' (text_of (h.env "ILO_EXTRA_PATHS"))))
        new_evidence).0

  -- `collect_evidence`
  unfoldable pub collect_evidence : Host → String → Result Json
  unfolding redfish_client collect extra_paths split
  collect_evidence h mgmt_url = collect_if h mgmt_url (redfish_client h mgmt_url)
