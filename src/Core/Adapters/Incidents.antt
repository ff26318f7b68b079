-- ===== src/Core/Adapters/Incidents.antt =====
-- servicenow.py, `HaloAdapter._to_ticket` (halo.py) and `BmcHelixAdapter._detail` and `_create`
-- (bmc_helix.py). The HTTP exchanges are left out.
use hpe_com_event_integratio.Base.{ℕ, zero, suc, String, ◌<>◌, true, [], ◌∷◌, ◌++◌, if◌then◌else◌}
use hpe_com_event_integratio.Base.Text.{truthy, join, prefix}
use hpe_com_event_integratio.Python.{
  Json, number, text, array, Items, nil, cons, Result, ok, raised, type_error, ◌>>=◌, ◌or◌,
  is_truthy, str,
}
use hpe_com_event_integratio.Core.Event.{
  CanonicalEvent, Severity, normal, warning, minor, major, critical, severity_text,
}
use hpe_com_event_integratio.Core.Render.{
  Formats, analysis_text, greenlake_url, is_filled, written, line_if,
}
use hpe_com_event_integratio.Core.Adapters.{
  dict, entry_if, is_clear, external_key, tag_text, full_description, lines_if, description_lines,
}

-- `_SEVERITY_NUM`
abbrev pub severity_num : Severity → String
severity_num critical = "1"
severity_num major = "2"
severity_num minor = "3"
severity_num warning = "4"
severity_num normal = "5"

-- `_IMPACT` of halo.py, a number's text.
abbrev pub halo_impact : Severity → String
halo_impact critical = "1"
halo_impact major = "2"
halo_impact minor = "3"
halo_impact warning = "3"
halo_impact normal = "4"

module _ (f : Formats) where
  unfoldable pub to_snow_event : CanonicalEvent → Result Json
  to_snow_event e = do
    description ← full_description f e (e.description or e.title)
    tags ← tag_text f e.tags
    ok (
        dict (
          ("source", text "HPE COM")
          ∷ ("event_class", text "compute-ops-management")
          ∷ ("resource", e.resource_model or text "")
          ∷ ("node", e.resource_serial or text "")
          ∷ ("severity", text (if is_clear e.action then "5" else severity_num e.severity))
          ∷ ("description", description)
          ∷ ("message_key", text (external_key e))
          ∷ ("additional_info", text tags)
          ∷ []))

  unfoldable pub to_snow_incident : CanonicalEvent → Result Json
  to_snow_incident e = do
    description ← full_description f e (
        e.description
        or text ("COM operation " <> e.operation <> " on " <> str f.repr e.resource_serial))
    ok (
        dict (
          ("short_description", e.title)
          ∷ ("description", description)
          ∷ ("cmdb_ci", e.resource_serial or text "")
          ∷ ("correlation_id", text (external_key e))
          ∷ []))

  -- The body of the PATCH that `_resolve_incident` sends for each row; SNOW_RESOLVED_STATE.
  abbrev pub resolution_patch : String → CanonicalEvent → Json
  resolution_patch state e = dict (
      ("state", text state)
      ∷ ("close_code", text "Resolved by caller")
      ∷ ("close_notes", text ("COM reported recovery: " <> str f.repr e.title))
      ∷ [])

  abbrev operation_line : CanonicalEvent → String
  operation_line e =
      "COM operation "
      <> e.operation
      <> " on "
      <> str f.repr (e.resource_serial or text "unknown")
      <> " ("
      <> str f.repr (e.resource_model or text "unknown model")
      <> ")."

  abbrev halo_details : CanonicalEvent → String
  halo_details e =
      operation_line e
      <> "\nEvent id: "
      <> e.event_id
      <> "\nSeverity: "
      <> severity_text e.severity
      <> "\niLO URL: "
      <> (if is_filled e.mgmt_url then written e.mgmt_url else "n/a")
      <> "\nHPE GreenLake URL: "
      <> greenlake_url
      <> "\nTime: "
      <> str f.repr (e.time_created or text "n/a")
      <> (if is_truthy e.description then "\n\n" <> str f.repr e.description else "")
      <> (if is_truthy e.resolution
          then "\n\nSuggested resolution: " <> str f.repr e.resolution
          else "")
      <> (if truthy (analysis_text f e) then "\n\n" <> analysis_text f e else "")

  -- The argument is HALO_TICKET_TYPE_ID.
  unfoldable pub to_ticket : Json → CanonicalEvent → Json
  to_ticket ticket_type e = dict (
      ("summary", e.title)
      ∷ ("details", text (halo_details e))
      ∷ ("tickettype_id", ticket_type)
      ∷ ("impact", number true (halo_impact e.severity))
      ∷ ("urgency", number true (halo_impact e.severity))
      ∷ ("thirdpartyref", text (external_key e))
      ∷ [])

  abbrev pub marker : CanonicalEvent → String
  marker e = "[COM:" <> external_key e <> "]"

  -- The lines before and after the description, which must be a text to be joined.
  unfoldable pub detail : CanonicalEvent → Result String
  detail e = do
    description ← description_lines [] e.description
    ok (
        join "\n" (
          operation_line e
            ∷ ("Event id: " <> e.event_id)
            ∷ ("Severity: " <> severity_text e.severity)
            ∷ ("Time: " <> str f.repr (e.time_created or text "n/a"))
            ∷ line_if (is_filled e.mgmt_url) ("iLO URL: " <> written e.mgmt_url)
          ++ ("HPE GreenLake URL: " <> greenlake_url) ∷ description
          ++ line_if (is_truthy e.resolution) ("Suggested resolution: " <> str f.repr e.resolution)
          ++ lines_if (truthy (analysis_text f e)) ("" ∷ analysis_text f e ∷ [])
          ++ marker e ∷ []))

-- `_IMPACT` and `_URGENCY` of bmc_helix.py
abbrev pub helix_impact : Severity → String
helix_impact critical = "1-Extensive/Widespread"
helix_impact major = "2-Significant/Large"
helix_impact minor = "3-Moderate/Limited"
helix_impact warning = "4-Minor/Localized"
helix_impact normal = "4-Minor/Localized"

abbrev pub helix_urgency : Severity → String
helix_urgency critical = "1-Critical"
helix_urgency major = "2-High"
helix_urgency minor = "3-Medium"
helix_urgency warning = "3-Medium"
helix_urgency normal = "4-Low"

-- BMC_HELIX_FIRST_NAME, _LAST_NAME, _SERVICE_TYPE, _REPORTED_SOURCE and _ASSIGNED_GROUP.
pub record HelixConfig : Type 0 where
  pub first_name : String
  pub last_name : String
  pub service_type : String
  pub reported_source : String
  pub assigned_group : String

unfoldable pub first_items : ℕ → Items → Items
first_items zero js = nil
first_items (suc n) nil = nil
first_items (suc n) (cons j js) = cons j (first_items n js)

-- `e.title[:100]`
abbrev pub cut_title : Json → Result Json
cut_title (text s) = ok (text (prefix 100 s))
cut_title (array js) = ok (array (first_items 100 js))
cut_title _ = raised type_error

unfoldable pub helix_values : Formats → HelixConfig → CanonicalEvent → Result Json
helix_values f c e = do
  title ← cut_title e.title
  details ← detail f e
  ok (
      dict (
        ("First_Name", text c.first_name)
        ∷ ("Last_Name", text c.last_name)
        ∷ ("Description", title)
        ∷ ("Detailed_Decription", text details)
        ∷ ("Impact", text (helix_impact e.severity))
        ∷ ("Urgency", text (helix_urgency e.severity))
        ∷ ("Status", text "New")
        ∷ ("Reported Source", text c.reported_source)
        ∷ ("Service_Type", text c.service_type)
        ∷ ("z1D_Action", text "CREATE")
        ∷ entry_if (truthy c.assigned_group) "Assigned Group" (text c.assigned_group)))
