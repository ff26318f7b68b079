-- ===== src/Core/Adapters/Chat/Mattermost.antt =====
-- com-event-core/com_event_core/adapters/mattermost.py: `MattermostAdapter._to_message`.
use hpe_com_event_integratio.Base.{
  String, ◌<>◌, Bool, true, false, List, [], ◌∷◌, ◌++◌, Option, none, some, truthy, if◌then◌else◌,
}
use hpe_com_event_integratio.Base.Text.{join, upper}
use hpe_com_event_integratio.Python.{
  Json, null, bool, text, array, Result, ok, ◌>>=◌, ◌or◌, is_truthy, str,
}
use hpe_com_event_integratio.Core.Event.{
  CanonicalEvent, Severity, normal, warning, minor, major, critical, severity_text, raise, clear,
  action_text,
}
use hpe_com_event_integratio.Core.Render.{
  Formats, greenlake_url, heading, advisory_heading, is_filled, written, has_analysis, numbered,
}
use hpe_com_event_integratio.Core.Adapters.{dict, items, entry_if, lines_if}
use hpe_com_event_integratio.Core.Adapters.Chat.{Reference, read_references, clip, need_text}

-- `_COLOR`
abbrev color_of : Severity → String
color_of critical = "#D32F2F"
color_of major = "#F44336"
color_of minor = "#FB8C00"
color_of warning = "#FFB300"
color_of normal = "#43A047"

abbrev color : CanonicalEvent → String
color e = elim e.action [ clear ↦ "#43A047" | raise ↦ color_of e.severity ]

abbrev before_title : CanonicalEvent → String
before_title e = elim e.action [
  | clear ↦ ":white_check_mark: Resolved"
  | raise ↦ ":rotating_light: " <> upper (severity_text e.severity)
]

-- `header`
unfoldable pub header : Formats → CanonicalEvent → String
unfolding clip upper str
header f e = clip (before_title e <> ": " <> str f.repr e.title) 300

abbrev detail : Bool → String → Json → Json
detail short title value =
    dict (("short", bool short) ∷ ("title", text title) ∷ ("value", value) ∷ [])

abbrev details : CanonicalEvent → List Json
details e =
    detail true "Severity" (text (severity_text e.severity))
    ∷ detail true "Action" (text (action_text e.action))
    ∷ detail true "Resource" (e.resource_name or e.resource_serial or text "unknown")
    ∷ detail true "Model" (e.resource_model or text "n/a")
    ∷ detail true "Serial" (e.resource_serial or text "n/a")
    ∷ []

abbrev links : CanonicalEvent → List String
links e =
    lines_if (is_filled e.mgmt_url) (("[Open iLO](" <> written e.mgmt_url <> ")") ∷ [])
    ++ ("[Open HPE GreenLake](" <> greenlake_url <> ")") ∷ []

abbrev main_attachment : Formats → CanonicalEvent → String → Json
main_attachment f e description =
    let described : String = clip description 3000 in
    let linked : String = join " | " (links e) in
    dict (
      ("fallback", text (header f e))
      ∷ ("color", text (color e))
      ∷ (
        "text",
        text (
            join "\n\n" (
              lines_if (truthy described) (described ∷ [])
              ++ lines_if (truthy linked) (linked ∷ []))),
      )
      ∷ ("fields", array (items (details e)))
      ∷ [])

abbrev field_if : Bool → Json → List Json
field_if true j = j ∷ []
field_if false j = []

abbrev confidence_fields : Formats → Json → List Json
confidence_fields f null = []
confidence_fields f c = detail true "Confidence" (text (f.percent c)) ∷ []

abbrev action_fields : List String → List Json
action_fields [] = []
action_fields (a ∷ actions) =
    detail false "Recommended actions" (text (clip (join "\n" (numbered 1 (a ∷ actions))) 3000))
    ∷ []

-- `e.analysis_summary or ""`
abbrev or_blank : Option String → String
or_blank none = ""
or_blank (some s) = s

abbrev analysis_attachments : Formats → CanonicalEvent → List Json
analysis_attachments f e =
    if has_analysis e
    then dict (
        ("fallback", text heading)
        ∷ ("color", text "#5C6BC0")
        ∷ ("title", text heading)
        ∷ ("text", text (clip (or_blank e.analysis_summary) 3000))
        ∷ (
          "fields",
          array (
              items (
                field_if (is_filled e.analysis_root_cause) (
                  detail false "Likely root cause"
                    (text (clip (written e.analysis_root_cause) 1500)))
                ++ confidence_fields f e.analysis_confidence
                ++ action_fields e.analysis_actions)),
        )
        ∷ [])
      ∷ []
    else []

abbrev id_before : Option String → String
id_before none = ""
id_before (some id) = "`" <> id <> "` "

abbrev link_behind : Formats → Json → String
link_behind f url = if is_truthy url then " ([View advisory](" <> str f.repr url <> "))" else ""

unfoldable pub advisory_items : Formats → List Reference → List String
advisory_items f [] = []
advisory_items f (r ∷ rs) =
    ("- **[" <> r.label <> "]** " <> id_before r.id <> r.title <> link_behind f r.url)
    ∷ advisory_items f rs

abbrev advisory_attachments : Formats → List Reference → List Json
advisory_attachments f [] = []
advisory_attachments f (r ∷ rs) =
    dict (
      ("fallback", text advisory_heading)
      ∷ ("color", text "#8D6E63")
      ∷ ("title", text advisory_heading)
      ∷ ("text", text (clip (join "\n" (advisory_items f (r ∷ rs))) 3500))
      ∷ [])
    ∷ []

-- `_to_message`, for MATTERMOST_USERNAME
unfoldable pub to_message : String → Formats → CanonicalEvent → Result Json
unfolding read_references header has_analysis numbered join clip advisory_items items str
to_message username f e = do
  description ← need_text (e.description or text "")
  refs ← read_references f e.advisory_references
  ok (
      dict (
        ("text", text ("#### " <> header f e))
        ∷ (
          "attachments",
          array (
              items (
                main_attachment f e description ∷ analysis_attachments f e
                ++ advisory_attachments f refs)),
        )
        ∷ entry_if (truthy username) "username" (text username)))
