-- ===== src/Core/Adapters.antt =====
-- com-event-core/com_event_core/adapters: what the adapters send for an event. Shared here: documents
-- built as Python's dict displays build them, and the pieces that several adapters write alike.
pub mod Alerts
pub mod Incidents
pub mod Monitoring
pub mod Records
pub mod Closing
pub mod Properties
pub mod FromAlerts
pub mod Jira
pub mod Chat
use hpe_com_event_integratio.Base.{
  String, ◌<>◌, Bool, true, false, List, [], ◌∷◌, ◌++◌, Option, none, some, if◌then◌else◌, contains,
}
use hpe_com_event_integratio.Base.Dict.{insert}
use hpe_com_event_integratio.Base.Text.{truthy, join, strip, split, has_char, partition}
use hpe_com_event_integratio.Python.{
  Json, null, text, array, object, Items, nil, cons, Fields, end, field, Result, ok, raised,
  type_error, attribute_error, ◌>>=◌, is_truthy, str,
}
use hpe_com_event_integratio.Core.Event.{CanonicalEvent, Action, raise, clear}
use hpe_com_event_integratio.Core.Render.{Formats, analysis_text, greenlake_url, is_filled, written}

abbrev pub Entries : Type 0
Entries = List (String × Json)

unfoldable pub fields : Entries → Fields
fields [] = end
fields ((k, v) ∷ entries) = field k v (fields entries)

abbrev pub dict : Entries → Json
dict entries = object (fields entries)

abbrev pub entry_if : Bool → String → Json → Entries
entry_if true k v = (k, v) ∷ []
entry_if false k v = []

abbrev pub optional : Option String → Json
optional none = null
optional (some s) = text s

unfoldable pub texts : List String → Items
texts [] = nil
texts (s ∷ ss) = cons (text s) (texts ss)

unfoldable pub items : List Json → Items
items [] = nil
items (j ∷ js) = cons j (items js)

abbrev pub is_clear : Action → Bool
is_clear clear = true
is_clear raise = false

-- `e.correlation_key or e.dedup_key`
abbrev pub external_key : CanonicalEvent → String
external_key e = if truthy e.correlation_key then e.correlation_key else e.dedup_key

-- `f"{k}={v}" for k, v in e.tags.items()`
unfoldable pub pairs : (Json → String) → Fields → List String
pairs repr end = []
pairs repr (field k v fs) = (k <> "=" <> str repr v) ∷ pairs repr fs

unfoldable pub tag_text : Formats → Json → Result String
tag_text f (object fs) = ok (join ";" (pairs f.repr fs))
tag_text f _ = raised attribute_error

-- The characters of a text, as `list += text` adds them.
unfoldable pub add_chars : Items → Items → Items
add_chars nil more = more
add_chars (cons j js) more = cons j (add_chars js more)

unfoldable pub chars : String → Items
chars String.[] = nil
chars (String.◌∷◌ c s) = cons (text (String.◌∷◌ c String.[])) (chars s)

-- `value += s`
unfoldable pub append_text : Json → String → Result Json
append_text (text t) s = ok (text (t <> s))
append_text (array js) s = ok (array (add_chars js (chars s)))
append_text _ s = raised type_error

-- `if analysis: description = f"{description}\n\n{analysis}"`
unfoldable pub with_analysis : Formats → CanonicalEvent → Json → Json
with_analysis f e description =
    if truthy (analysis_text f e)
    then text (str f.repr description <> "\n\n" <> analysis_text f e)
    else description

-- `if e.mgmt_url: description += f"\n\niLO URL: {e.mgmt_url}"`
unfoldable pub with_url : CanonicalEvent → Json → Result Json
with_url e description =
    if is_filled e.mgmt_url
    then append_text description ("\n\niLO URL: " <> written e.mgmt_url)
    else ok description

-- The three additions of ServiceNow and OpsRamp: the analysis and the two links.
unfoldable pub full_description : Formats → CanonicalEvent → Json → Result Json
full_description f e description = do
  linked ← with_url e (with_analysis f e description)
  append_text linked ("\nHPE GreenLake URL: " <> greenlake_url)

-- `text` of a line that `"\n".join` takes.
abbrev pub line : Json → Result String
line (text s) = ok s
line _ = raised type_error

abbrev pub lines_if : Bool → List String → List String
lines_if true ls = ls
lines_if false ls = []

-- `lines += ["", e.description]` if there is one, to be joined.
unfoldable pub description_lines : List String → Json → Result (List String)
description_lines before description =
    if is_truthy description then (line description >>= λ s. ok (before ++ s ∷ [])) else ok []

-- `key=value` pairs of a variable: the loop of Dynatrace's and of Grafana's constructor.
unfoldable pub add_pairs : List String → List (String × String) → List (String × String)
add_pairs [] props = props
add_pairs (pair ∷ parts) props =
    let (k, v) = partition b'=' pair in
    add_pairs parts (
      if has_char b'=' pair
      then (if truthy (strip k) then insert (strip k) (strip v) props else props)
      else props)

unfoldable pub extra_pairs : String → List (String × String)
unfolding add_pairs
extra_pairs raw = add_pairs (split b',' raw) []

unfoldable pub as_entries : List (String × String) → Entries
as_entries [] = []
as_entries ((k, v) ∷ props) = (k, text v) ∷ as_entries props

-- `props.update(...)`
unfoldable pub update : Entries → Entries → Entries
update props [] = props
update props ((k, v) ∷ entries) = update (insert k v props) entries
