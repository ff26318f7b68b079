-- ===== src/Core/Render.antt =====
-- com-event-core/com_event_core/enrich/render.py: an event's analysis and its advisories as text.
pub mod Analysis
use hpe_com_event_integratio.Base.{
  ℕ, ◌+◌, String, ◌<>◌, Bool, true, false, List, [], ◌∷◌, ◌++◌, Option, none, some, ◌||◌, not, ◌==◌,
  if◌then◌else◌,
}
use hpe_com_event_integratio.Base.Text.{truthy, upper, join, decimal}
use hpe_com_event_integratio.Python.{
  Json, null, text, object, Fields, end, field, Result, ok, raised, key_error, type_error, ◌>>=◌,
  ◌or◌, is_truthy, get, as_text, str,
}
use hpe_com_event_integratio.Core.Event.{CanonicalEvent}

-- What the texts of the targets take from Python: `str` of a list or dict, and a number formatted
-- with `.0%` and with `.2f`.
pub record Formats : Type 0 where
  pub repr : Json → String
  pub percent : Json → String
  pub fixed2 : Json → String

abbrev pub greenlake_url : String
greenlake_url = "https://common.cloud.hpe.com/"

abbrev pub heading : String
heading = "AI analysis (automated — verify before acting)"

-- The truth value of an optional text.
abbrev pub is_filled : Option String → Bool
is_filled none = false
is_filled (some s) = truthy s

abbrev pub written : Option String → String
written none = "None"
written (some s) = s

abbrev pub is_empty : List String → Bool
is_empty [] = true
is_empty (_ ∷ _) = false

unfoldable pub has_analysis : CanonicalEvent → Bool
has_analysis e =
    is_filled e.analysis_summary
    || is_filled e.analysis_root_cause
    || not (is_empty e.analysis_actions)

-- `if lines: lines.append("")`
abbrev pub blank_after : List String → List String
blank_after [] = []
blank_after (l ∷ ls) = l ∷ ls ++ "" ∷ []

-- `f"{i}. {a}"` for each action, from number `i` on.
unfoldable pub numbered : ℕ → List String → List String
numbered i [] = []
numbered i (a ∷ actions) = (decimal i <> ". " <> a) ∷ numbered (i + 1) actions

abbrev pub line_if : Bool → String → List String
line_if true l = l ∷ []
line_if false l = []

abbrev pub confidence_lines : Formats → Json → List String
confidence_lines f null = []
confidence_lines f c = ("Confidence: " <> f.percent c) ∷ []

abbrev pub meta_lines : Formats → CanonicalEvent → List String
meta_lines f e =
    line_if (is_filled e.analysis_root_cause)
      ("Likely root cause: " <> written e.analysis_root_cause)
    ++ confidence_lines f e.analysis_confidence

abbrev pub add_meta : List String → List String → List String
add_meta lines [] = lines
add_meta lines (m ∷ meta) = blank_after lines ++ m ∷ meta

abbrev pub add_actions : List String → List String → List String
add_actions lines [] = lines
add_actions lines (a ∷ actions) =
    blank_after lines ++ "Recommended actions:" ∷ numbered 1 (a ∷ actions)

unfoldable pub analysis_lines : Formats → CanonicalEvent → List String
analysis_lines f e =
    if has_analysis e
    then add_actions
        (add_meta (line_if (is_filled e.analysis_summary) (written e.analysis_summary))
          (meta_lines f e))
        e.analysis_actions
    else []

-- `"\n".join([HEADING, *lines]) if lines else ""`
abbrev pub headed : String → List String → String
headed title [] = ""
headed title (l ∷ lines) = join "\n" (title ∷ l ∷ lines)

unfoldable pub analysis_text : Formats → CanonicalEvent → String
analysis_text f e = headed heading (analysis_lines f e)

abbrev pub advisory_heading : String
advisory_heading = "HPE Customer Advisories (from installed firmware bundle)"

-- `d[k]`
unfoldable pub find_item : String → Fields → Result Json
find_item k end = raised key_error
find_item k (field j v fs) = if j == k then ok v else find_item k fs

unfoldable pub item : Json → String → Result Json
unfolding find_item
item (object fs) k = find_item k fs
item _ k = raised type_error

-- The one or two lines of a reference.
unfoldable pub reference_lines : Formats → Json → Result (List String)
reference_lines f ref = do
  status ← item ref "status"
  label ← as_text status
  title ← get ref "title"
  id ← get ref "id"
  url ← get ref "url"
  let prefix =
      if is_truthy id
      then "[" <> upper label <> "] " <> str f.repr id <> ": "
      else "[" <> upper label <> "] "
  ok (
      (prefix <> str f.repr (title or text "(untitled advisory)"))
      ∷ line_if (is_truthy url) ("  " <> str f.repr url))

unfoldable pub references_lines : Formats → List Json → Result (List String)
unfolding reference_lines
references_lines f [] = ok []
references_lines f (ref ∷ refs) = do
  lines ← reference_lines f ref
  rest ← references_lines f refs
  ok (lines ++ rest)

unfoldable pub advisory_lines : Formats → CanonicalEvent → Result (List String)
unfolding references_lines
advisory_lines f e = references_lines f e.advisory_references

unfoldable pub advisory_text : Formats → CanonicalEvent → Result String
unfolding advisory_lines
advisory_text f e = do lines ← advisory_lines f e; ok (headed advisory_heading lines)
