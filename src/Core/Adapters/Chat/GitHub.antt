-- ===== src/Core/Adapters/Chat/GitHub.antt =====
-- com-event-core/com_event_core/adapters/github.py: the issue that `GitHubAdapter` opens.
use hpe_com_event_integratio.Base.{String, ◌<>◌, List, [], ◌∷◌, ◌++◌, if◌then◌else◌}
use hpe_com_event_integratio.Base.Text.{join, upper}
use hpe_com_event_integratio.Python.{
  Json, null, text, array, Result, ok, ◌>>=◌, ◌or◌, is_truthy, get, as_text, str,
}
use hpe_com_event_integratio.Core.Event.{CanonicalEvent, severity_text}
use hpe_com_event_integratio.Core.Render.{
  Formats, greenlake_url, heading, advisory_heading, is_filled, written, has_analysis, numbered,
  item,
}
use hpe_com_event_integratio.Core.Adapters.{dict, external_key, texts, lines_if}
use hpe_com_event_integratio.Core.Adapters.Chat.{need_text, shown}

-- `_corr_label`
abbrev pub corr_label : CanonicalEvent → String
corr_label e = "com:" <> external_key e

abbrev text_lines : Json → Result (List String)
text_lines j = if is_truthy j then (need_text j >>= λ s. ok ("" ∷ s ∷ [])) else ok []

abbrev confidence_line : Formats → Json → List String
confidence_line f null = []
confidence_line f c = ("**Confidence:** " <> f.percent c) ∷ []

abbrev with_blank : List String → List String
with_blank [] = []
with_blank (l ∷ ls) = (l ∷ ls) ++ "" ∷ []

abbrev action_lines : List String → List String
action_lines [] = []
action_lines (a ∷ actions) = "**Recommended actions:**" ∷ numbered 1 (a ∷ actions)

abbrev analysis_lines : Formats → CanonicalEvent → List String
analysis_lines f e =
    if has_analysis e
    then ""
        ∷ ("### " <> heading)
        ∷ ""
        ∷ lines_if (is_filled e.analysis_summary) (written e.analysis_summary ∷ "" ∷ [])
      ++ with_blank (
          lines_if (is_filled e.analysis_root_cause)
            (("**Likely root cause:** " <> written e.analysis_root_cause) ∷ [])
          ++ confidence_line f e.analysis_confidence)
      ++ action_lines e.analysis_actions
    else []

-- The line of an advisory.
unfoldable pub reference_line : Formats → Json → Result String
unfolding item as_text get upper str
reference_line f ref = do
  status ← item ref "status"
  label ← as_text status
  title ← get ref "title"
  id ← get ref "id"
  url ← get ref "url"
  let before =
      if is_truthy id
      then "**[" <> upper label <> "]** `" <> str f.repr id <> "` "
      else "**[" <> upper label <> "]** "
  let behind = if is_truthy url then " — [advisory](" <> str f.repr url <> ")" else ""
  ok ("- " <> before <> str f.repr (title or text "(untitled advisory)") <> behind)

unfoldable pub reference_lines : Formats → List Json → Result (List String)
unfolding reference_line
reference_lines f [] = ok []
reference_lines f (ref ∷ refs) = do
  first ← reference_line f ref
  rest ← reference_lines f refs
  ok (first ∷ rest)

abbrev with_heading : List String → List String
with_heading [] = []
with_heading (l ∷ ls) = "" ∷ ("### " <> advisory_heading) ∷ "" ∷ l ∷ ls

abbrev event_lines : Formats → CanonicalEvent → List String
event_lines f e =
    ("**COM event** `" <> e.event_id <> "` — operation **" <> e.operation <> "**")
      ∷ ""
      ∷ ("- **Severity:** " <> severity_text e.severity)
      ∷ ("- **Resource:** "
          <> str f.repr (e.resource_name or e.resource_serial or text "unknown")
          <> " ("
          <> shown f e.resource_model "unknown model"
          <> ")")
      ∷ ("- **Serial:** " <> shown f e.resource_serial "n/a")
      ∷ ("- **Time:** " <> shown f e.time_created "n/a")
      ∷ lines_if (is_filled e.mgmt_url) (("- [Open iLO](" <> written e.mgmt_url <> ")") ∷ [])
    ++ ("- [Open HPE GreenLake](" <> greenlake_url <> ")") ∷ []

-- `_body`, for `_MARKER`
unfoldable pub body : String → Formats → CanonicalEvent → Result String
unfolding join has_analysis numbered reference_lines str
body marker f e = do
  described ← text_lines e.description
  refs ← reference_lines f e.advisory_references
  let resolution =
      lines_if (is_truthy e.resolution)
        ("" ∷ ("**Suggested resolution:** " <> str f.repr e.resolution) ∷ [])
  ok (
      join "\n" (
        event_lines f e
        ++ described
        ++ resolution
        ++ analysis_lines f e
        ++ with_heading refs
        ++ "" ∷ ("<!-- " <> marker <> " " <> external_key e <> " -->") ∷ []))

-- The request of `_create`.
unfoldable pub issue : String → List String → Formats → CanonicalEvent → Result Json
unfolding body texts
issue marker extra_labels f e = do
  b ← body marker f e
  ok (
      dict (
        ("title", e.title)
        ∷ ("body", text b)
        ∷ ("labels", array (texts (corr_label e ∷ extra_labels)))
        ∷ []))
