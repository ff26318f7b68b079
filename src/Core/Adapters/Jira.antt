-- ===== src/Core/Adapters/Jira.antt =====
-- com-event-core/com_event_core/adapters/jira.py: the documents that `JiraAdapter` sends.
pub mod Exchange
pub mod Closed
use hpe_com_event_integratio.Base.{
  ℕ, String, ◌<>◌, Bool, true, false, List, [], ◌∷◌, ◌++◌, ◌||◌, ◌&&◌, not, leb, nat_eq, Option,
  none, some, if◌then◌else◌,
}
use Prim.Native.Char.{code}
use hpe_com_event_integratio.Base.Text.{truthy, upper, prefix, strip, split}
use hpe_com_event_integratio.Python.{
  Json, null, text, number, array, object, Fields, Result, ok, raised, type_error, ◌>>=◌, ◌or◌,
  is_truthy, get, as_text, str,
}
use hpe_com_event_integratio.Core.Event.{CanonicalEvent, severity_text}
use hpe_com_event_integratio.Core.Render.{
  Formats, greenlake_url, heading, advisory_heading, is_filled, written, is_empty, has_analysis,
  item,
}
use hpe_com_event_integratio.Core.Adapters.{Entries, dict, items, external_key, entry_if, texts}

-- `[A-Za-z0-9_.-]`
unfoldable pub is_label_char : ℕ → Bool
is_label_char n =
    (leb b'A' n && leb n b'Z')
    || (leb b'a' n && leb n b'z')
    || (leb b'0' n && leb n b'9')
    || nat_eq n b'_'
    || nat_eq n b'.'
    || nat_eq n b'-'

-- `_LABEL_SANITISE.sub("_", key)`
unfoldable pub sanitised : String → String
unfolding is_label_char
sanitised String.[] = ""
sanitised (String.◌∷◌ c s) = String.◌∷◌ (if is_label_char (code c) then c else "_") (sanitised s)

-- `_corr_label`
unfoldable pub corr_label : CanonicalEvent → String
unfolding sanitised
corr_label e = "com-" <> sanitised (external_key e)

abbrev text_node : Json → Entries
text_node t = ("type", text "text") ∷ ("text", t) ∷ []

abbrev strong : Json
strong = array (items (dict (("type", text "strong") ∷ []) ∷ []))

abbrev paragraph : List Json → Json
paragraph content = dict (("type", text "paragraph") ∷ ("content", array (items content)) ∷ [])

-- `_adf_para`, plain, with a bold prefix, and bold
abbrev pub adf_para : Json → Json
adf_para t = paragraph (dict (text_node t) ∷ [])

abbrev pub adf_labelled : String → Json → Json
adf_labelled label t =
    paragraph (dict (text_node (text label) ++ ("marks", strong) ∷ []) ∷ dict (text_node t) ∷ [])

abbrev pub adf_bold : Json → Json
adf_bold t = paragraph (dict (text_node t ++ ("marks", strong) ∷ []) ∷ [])

-- `_adf_link_para`
abbrev pub adf_link_para : Json → Json → Json
adf_link_para t href =
    let mark : Json = dict (("type", text "link") ∷ ("attrs", dict (("href", href) ∷ [])) ∷ []) in
    paragraph (dict (text_node t ++ ("marks", array (items (mark ∷ []))) ∷ []) ∷ [])

-- `_adf_heading`, at its default level
abbrev pub adf_heading : String → Json
adf_heading t = dict (
    ("type", text "heading")
    ∷ ("attrs", dict (("level", number true "3") ∷ []))
    ∷ ("content", array (items (dict (text_node (text t)) ∷ [])))
    ∷ [])

list_items : List String → List Json
unfolding items
list_items [] = []
list_items (s ∷ ss) =
    dict (("type", text "listItem") ∷ ("content", array (items (adf_para (text s) ∷ []))) ∷ [])
    ∷ list_items ss

-- `_adf_ordered_list`
unfoldable pub adf_ordered_list : List String → Json
unfolding list_items
adf_ordered_list actions = dict (
    ("type", text "orderedList")
    ∷ ("attrs", dict (("order", number true "1") ∷ []))
    ∷ ("content", array (items (list_items actions)))
    ∷ [])

abbrev node_if : Bool → Json → List Json
node_if true j = j ∷ []
node_if false j = []

abbrev confidence_nodes : Formats → Json → List Json
confidence_nodes f null = []
confidence_nodes f c = adf_labelled "Confidence: " (text (f.percent c)) ∷ []

abbrev analysis_nodes : Formats → CanonicalEvent → List Json
analysis_nodes f e =
    if has_analysis e
    then adf_heading heading
        ∷ node_if (is_filled e.analysis_summary) (adf_para (text (written e.analysis_summary)))
      ++ node_if (is_filled e.analysis_root_cause)
          (adf_labelled "Likely root cause: " (text (written e.analysis_root_cause)))
      ++ confidence_nodes f e.analysis_confidence
      ++ (if is_empty e.analysis_actions
          then []
          else adf_bold (text "Recommended actions:") ∷ adf_ordered_list e.analysis_actions ∷ [])
    else []

unfoldable pub advisory_nodes : Formats → Json → Result (List Json)
unfolding item as_text get upper str
advisory_nodes f ref = do
  status ← item ref "status"
  label ← as_text status
  title ← get ref "title"
  id ← get ref "id"
  url ← get ref "url"
  let before =
      if is_truthy id
      then "[" <> upper label <> "] " <> str f.repr id <> ": "
      else "[" <> upper label <> "] "
  ok (
      adf_para (text (before <> str f.repr (title or text "(untitled advisory)")))
      ∷ node_if (is_truthy url) (adf_link_para url url))

unfoldable pub references_nodes : Formats → List Json → Result (List Json)
unfolding advisory_nodes
references_nodes f [] = ok []
references_nodes f (ref ∷ refs) = do
  nodes ← advisory_nodes f ref
  rest ← references_nodes f refs
  ok (nodes ++ rest)

abbrev with_heading : List Json → List Json
with_heading [] = []
with_heading (n ∷ nodes) = adf_heading advisory_heading ∷ n ∷ nodes

abbrev event_nodes : Formats → CanonicalEvent → List Json
event_nodes f e =
    adf_para (
        text (
          "COM operation "
          <> e.operation
          <> " on "
          <> str f.repr (e.resource_serial or text "unknown")
          <> " ("
          <> str f.repr (e.resource_model or text "unknown model")
          <> ")."))
      ∷ adf_para (text ("Event id: " <> e.event_id))
      ∷ adf_para (text ("Severity: " <> severity_text e.severity))
      ∷ adf_para (text ("Time: " <> str f.repr (e.time_created or text "n/a")))
      ∷ node_if (is_filled e.mgmt_url)
          (adf_link_para (text ("Open iLO: " <> written e.mgmt_url)) (text (written e.mgmt_url)))
    ++ adf_link_para (text "Open HPE GreenLake") (text greenlake_url)
      ∷ node_if (is_truthy e.description) (adf_para e.description)
    ++ node_if (is_truthy e.resolution) (adf_labelled "Suggested resolution: " e.resolution)

-- `_adf`
unfoldable pub adf : Formats → CanonicalEvent → Result Json
unfolding references_nodes adf_ordered_list has_analysis str items
adf f e = do
  nodes ← references_nodes f e.advisory_references
  ok (
      dict (
        ("type", text "doc")
        ∷ ("version", number true "1")
        ∷ ("content", array (items (event_nodes f e ++ analysis_nodes f e ++ with_heading nodes)))
        ∷ []))

-- `s[:255]`
abbrev first_chars : Json → Result Json
first_chars (text s) = ok (text (prefix 255 s))
first_chars _ = raised type_error

-- What the constructor reads.
pub record Jira : Type 0 where
  pub api : String
  pub project : String
  pub issue_type : String
  pub close_transition : String
  pub extra_labels : List String

-- JIRA_LABELS, at the commas.
unfoldable pub extra_labels_of : List String → List String
unfolding strip
extra_labels_of [] = []
extra_labels_of (s ∷ ss) =
    let rest = extra_labels_of ss in if truthy (strip s) then strip s ∷ rest else rest

-- The body of the request of `_create`.
unfoldable pub create_fields : Jira → Formats → CanonicalEvent → Result Json
unfolding adf corr_label prefix texts
create_fields c f e = do
  summary ← first_chars e.title
  description ← adf f e
  ok (
      dict (
        ("project", dict (("key", text c.project) ∷ []))
        ∷ ("issuetype", dict (("name", text c.issue_type) ∷ []))
        ∷ ("summary", summary)
        ∷ ("description", description)
        ∷ ("labels", array (texts (corr_label e ∷ c.extra_labels)))
        ∷ []))
