-- ===== src/Core/Adapters/Chat/Slack.antt =====
-- com-event-core/com_event_core/adapters/slack.py: `SlackAdapter._to_message`.
use hpe_com_event_integratio.Base.{
  String, ◌<>◌, Bool, true, false, List, [], ◌∷◌, ◌++◌, Option, none, some, truthy, if◌then◌else◌,
}
use hpe_com_event_integratio.Base.Text.{join}
use hpe_com_event_integratio.Python.{
  Json, null, bool, text, array, Result, ok, ◌>>=◌, ◌or◌, is_truthy, str,
}
use hpe_com_event_integratio.Core.Event.{
  CanonicalEvent, Severity, normal, warning, minor, major, critical, severity_text, raise, clear,
  action_text,
}
use hpe_com_event_integratio.Core.Render.{
  Formats, greenlake_url, heading, advisory_heading, is_filled, written, has_analysis, numbered,
}
use hpe_com_event_integratio.Core.Adapters.{dict, items, entry_if}
use hpe_com_event_integratio.Core.Adapters.Chat.{
  Reference, read_references, headline, shown, clip, need_text,
}

-- `_COLOR`
abbrev color_of : Severity → String
color_of critical = "#D32F2F"
color_of major = "#F44336"
color_of minor = "#FB8C00"
color_of warning = "#FFB300"
color_of normal = "#43A047"

abbrev color : CanonicalEvent → String
color e = elim e.action [ clear ↦ "#43A047" | raise ↦ color_of e.severity ]

abbrev mrkdwn : String → Json
mrkdwn s = dict (("type", text "mrkdwn") ∷ ("text", text s) ∷ [])

abbrev section : String → Json
section s = dict (("type", text "section") ∷ ("text", mrkdwn s) ∷ [])

abbrev section_fields : List Json → Json
section_fields js = dict (("type", text "section") ∷ ("fields", array (items js)) ∷ [])

abbrev context : String → Json
context s = dict (("type", text "context") ∷ ("elements", array (items (mrkdwn s ∷ []))) ∷ [])

abbrev divider : Json
divider = dict (("type", text "divider") ∷ [])

abbrev block_if : Bool → Json → List Json
block_if true j = j ∷ []
block_if false j = []

-- `header`
unfoldable pub header : Formats → CanonicalEvent → String
unfolding headline clip str
header f e = clip (headline e <> " — " <> str f.repr e.title) 150

abbrev main_fields : Formats → CanonicalEvent → List Json
main_fields f e =
    mrkdwn ("*Severity:*\n" <> severity_text e.severity)
    ∷ mrkdwn ("*Action:*\n" <> action_text e.action)
    ∷ mrkdwn
        ("*Resource:*\n" <> str f.repr (e.resource_name or e.resource_serial or text "unknown"))
    ∷ mrkdwn ("*Model:*\n" <> shown f e.resource_model "n/a")
    ∷ mrkdwn ("*Serial:*\n" <> shown f e.resource_serial "n/a")
    ∷ []

abbrev header_block : String → Json
header_block s = dict (
    ("type", text "header")
    ∷ ("text", dict (("type", text "plain_text") ∷ ("text", text s) ∷ ("emoji", bool true) ∷ []))
    ∷ [])

abbrev pub description_blocks : Json → Result (List Json)
description_blocks j =
    if is_truthy j then (need_text j >>= λ s. ok (section (clip s 2900) ∷ [])) else ok []

abbrev confidence_fields : Formats → Json → List Json
confidence_fields f null = []
confidence_fields f c = mrkdwn ("*Confidence:*\n" <> f.percent c) ∷ []

abbrev fields_block : List Json → List Json
fields_block [] = []
fields_block (j ∷ js) = section_fields (j ∷ js) ∷ []

abbrev action_blocks : List String → List Json
action_blocks [] = []
action_blocks (a ∷ actions) =
    section (clip ("*Recommended actions:*\n" <> join "\n" (numbered 1 (a ∷ actions))) 2900) ∷ []

abbrev analysis_blocks : Formats → CanonicalEvent → List Json
analysis_blocks f e =
    if has_analysis e
    then divider
        ∷ context (":robot_face: *" <> heading <> "*")
        ∷ block_if (is_filled e.analysis_summary) (section (clip (written e.analysis_summary) 2900))
      ++ fields_block (
          block_if (is_filled e.analysis_root_cause)
            (mrkdwn ("*Likely root cause:*\n" <> clip (written e.analysis_root_cause) 1500))
          ++ confidence_fields f e.analysis_confidence)
      ++ action_blocks e.analysis_actions
    else []

abbrev id_before : Option String → String
id_before none = ""
id_before (some id) = "`" <> id <> "` "

abbrev link_behind : Formats → Json → String
link_behind f url = if is_truthy url then "\n<" <> str f.repr url <> "|View advisory>" else ""

unfoldable pub advisory_sections : Formats → List Reference → List Json
unfolding clip
advisory_sections f [] = []
advisory_sections f (r ∷ rs) =
    section
      (clip ("*[" <> r.label <> "]* " <> id_before r.id <> r.title <> link_behind f r.url) 2900)
    ∷ advisory_sections f rs

abbrev advisory_blocks : Formats → List Reference → List Json
advisory_blocks f [] = []
advisory_blocks f (r ∷ rs) =
    divider ∷ context (":memo: *" <> advisory_heading <> "*") ∷ advisory_sections f (r ∷ rs)

abbrev button : String → String → Json
button label url = dict (
    ("type", text "button")
    ∷ ("text", dict (("type", text "plain_text") ∷ ("text", text label) ∷ []))
    ∷ ("url", text url)
    ∷ [])

abbrev actions_block : CanonicalEvent → Json
actions_block e = dict (
    ("type", text "actions")
    ∷ (
      "elements",
      array (
          items (
            block_if (is_filled e.mgmt_url) (button "Open iLO" (written e.mgmt_url))
            ++ button "Open HPE GreenLake" greenlake_url ∷ [])),
    )
    ∷ [])

abbrev attachment : CanonicalEvent → List Json → Json
attachment e blocks = dict (("color", text (color e)) ∷ ("blocks", array (items blocks)) ∷ [])

-- `_to_message`, for SLACK_USERNAME
unfoldable pub to_message : String → Formats → CanonicalEvent → Result Json
unfolding read_references header has_analysis numbered join clip advisory_sections items str
to_message username f e = do
  described ← description_blocks e.description
  refs ← read_references f e.advisory_references
  ok (
      dict (
        ("text", text (header f e))
        ∷ (
          "attachments",
          array (
              items (
                attachment e (
                  header_block (header f e) ∷ section_fields (main_fields f e) ∷ described
                  ++ analysis_blocks f e
                  ++ advisory_blocks f refs
                  ++ actions_block e ∷ [])
                ∷ [])),
        )
        ∷ entry_if (truthy username) "username" (text username)))
