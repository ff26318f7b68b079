-- ===== src/Core/Adapters/Chat/Teams.antt =====
-- com-event-core/com_event_core/adapters/teams.py: `TeamsAdapter._card` and the envelope of `forward`.
use hpe_com_event_integratio.Base.{
  String, ◌<>◌, Bool, true, false, List, [], ◌∷◌, ◌++◌, Option, none, some, if◌then◌else◌,
}
use hpe_com_event_integratio.Base.Text.{join}
use hpe_com_event_integratio.Python.{
  Json, null, bool, text, array, Result, ok, ◌>>=◌, ◌or◌, is_truthy, str,
}
use hpe_com_event_integratio.Core.Event.{
  CanonicalEvent, Severity, normal, warning, minor, major, critical, severity_text, raise, clear,
  action_text,
}
use hpe_com_event_integratio.Core.Render.{
  Formats, greenlake_url, heading, advisory_heading, is_filled, written, has_analysis, numbered,
}
use hpe_com_event_integratio.Core.Adapters.{Entries, dict, items}
use hpe_com_event_integratio.Core.Adapters.Chat.{Reference, read_references, headline}

-- `_COLOR`
abbrev color_of : Severity → String
color_of critical = "attention"
color_of major = "attention"
color_of minor = "warning"
color_of warning = "warning"
color_of normal = "good"

abbrev color : CanonicalEvent → String
color e = elim e.action [ clear ↦ "good" | raise ↦ color_of e.severity ]

abbrev fact : String → Json → Json
fact title value = dict (("title", text title) ∷ ("value", value) ∷ [])

-- A text block with entries before its text.
abbrev text_block : Entries → Json → Json
text_block options t = dict (("type", text "TextBlock") ∷ options ++ ("text", t) ∷ [])

abbrev wrapped : Entries
wrapped = ("wrap", bool true) ∷ []

abbrev subtle : Entries
subtle = ("wrap", bool true) ∷ ("isSubtle", bool true) ∷ []

abbrev bolder : Entries
bolder = ("weight", text "Bolder") ∷ ("wrap", bool true) ∷ []

abbrev title_block : String → Json
title_block s = dict (
    ("type", text "TextBlock")
    ∷ ("weight", text "Bolder")
    ∷ ("wrap", bool true)
    ∷ ("text", text s)
    ∷ ("spacing", text "Large")
    ∷ [])

abbrev fact_set : List Json → Json
fact_set facts = dict (("type", text "FactSet") ∷ ("facts", array (items facts)) ∷ [])

abbrev block_if : Bool → Json → List Json
block_if true j = j ∷ []
block_if false j = []

abbrev main_facts : CanonicalEvent → List Json
main_facts e =
    fact "Severity" (text (severity_text e.severity))
    ∷ fact "Action" (text (action_text e.action))
    ∷ fact "Resource" (e.resource_name or e.resource_serial or text "unknown")
    ∷ fact "Model" (e.resource_model or text "n/a")
    ∷ fact "Serial" (e.resource_serial or text "n/a")
    ∷ fact "Time" (e.time_created or text "n/a")
    ∷ []

abbrev headline_block : Formats → CanonicalEvent → Json
headline_block f e =
    text_block
      (("size", text "Large") ∷ ("weight", text "Bolder") ∷ ("color", text (color e)) ∷ wrapped)
      (text (headline e <> " — " <> str f.repr e.title))

abbrev confidence_facts : Formats → Json → List Json
confidence_facts f null = []
confidence_facts f c = fact "Confidence" (text (f.percent c)) ∷ []

abbrev facts_block : List Json → List Json
facts_block [] = []
facts_block (j ∷ js) = fact_set (j ∷ js) ∷ []

abbrev action_blocks : List String → List Json
action_blocks [] = []
action_blocks (a ∷ actions) =
    text_block bolder (text "Recommended actions:")
    ∷ text_block wrapped (text (join "\n" (numbered 1 (a ∷ actions))))
    ∷ []

abbrev analysis_blocks : Formats → CanonicalEvent → List Json
analysis_blocks f e =
    if has_analysis e
    then title_block heading
        ∷ block_if (is_filled e.analysis_summary)
            (text_block wrapped (text (written e.analysis_summary)))
      ++ facts_block (
          block_if (is_filled e.analysis_root_cause)
            (fact "Likely root cause" (text (written e.analysis_root_cause)))
          ++ confidence_facts f e.analysis_confidence)
      ++ action_blocks e.analysis_actions
    else []

abbrev id_before : Option String → String
id_before none = ""
id_before (some id) = id <> ": "

unfoldable pub reference_blocks : List Reference → List Json
reference_blocks [] = []
reference_blocks (r ∷ rs) =
    text_block wrapped (text ("[" <> r.label <> "] " <> id_before r.id <> r.title))
      ∷ block_if (is_truthy r.url) (text_block subtle r.url)
    ++ reference_blocks rs

abbrev advisory_blocks : List Reference → List Json
advisory_blocks [] = []
advisory_blocks (r ∷ rs) = title_block advisory_heading ∷ reference_blocks (r ∷ rs)

abbrev open_url : String → String → Json
open_url title url =
    dict (("type", text "Action.OpenUrl") ∷ ("title", text title) ∷ ("url", text url) ∷ [])

-- `_card`
unfoldable pub card : Formats → CanonicalEvent → Result Json
unfolding read_references headline has_analysis numbered join reference_blocks items str
card f e = do
  refs ← read_references f e.advisory_references
  ok (
      dict (
        ("type", text "AdaptiveCard")
        ∷ ("$schema", text "http://adaptivecards.io/schemas/adaptive-card.json")
        ∷ ("version", text "1.4")
        ∷ (
          "body",
          array (
              items (
                headline_block f e
                  ∷ fact_set (main_facts e)
                  ∷ block_if (is_truthy e.description) (text_block wrapped e.description)
                ++ block_if (is_truthy e.resolution)
                    (text_block subtle (text ("Suggested resolution: " <> str f.repr e.resolution)))
                ++ analysis_blocks f e
                ++ advisory_blocks refs)),
        )
        ∷ (
          "actions",
          array (
              items (
                block_if (is_filled e.mgmt_url) (open_url "Open iLO" (written e.mgmt_url))
                ++ open_url "Open HPE GreenLake" greenlake_url ∷ [])),
        )
        ∷ []))

-- `envelope`
unfoldable pub envelope : Formats → CanonicalEvent → Result Json
unfolding card items
envelope f e = do
  content ← card f e
  ok (
      dict (
        ("type", text "message")
        ∷ (
          "attachments",
          array (
              items (
                dict (
                  ("contentType", text "application/vnd.microsoft.card.adaptive")
                  ∷ ("content", content)
                  ∷ [])
                ∷ [])),
        )
        ∷ []))
