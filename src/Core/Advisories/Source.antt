-- ===== src/Core/Advisories/Source.antt =====
-- com-event-core/com_event_core/enrich/advisories.py: where the advisories of a bundle come from, the
-- JSON asset first and the page behind it. The HTTP exchanges, the splitting of URLs and the events
-- that `HTMLParser` makes of a page are the parameter `Web`.
use hpe_com_event_integratio.Base.{
  String, ◌<>◌, Bool, true, false, List, [], ◌∷◌, Option, none, some, not, ◌||◌, truthy,
  if◌then◌else◌,
}
use hpe_com_event_integratio.Base.Text.{strip, split, join}
use hpe_com_event_integratio.Python.{
  Json, null, text, object, field, end, Result, ok, raised, ◌>>=◌, get, elements_or_nil,
}
use hpe_com_event_integratio.Core.Advisories.Patterns.{match_component, match_id}
use hpe_com_event_integratio.Core.Advisories.Page.{
  Section, open_advisories, resolved_advisories, Event, Entry, Parser, new_parser, feed,
}

-- The parts of `urlparse` that are used.
pub record PageUrl : Type 0 where
  pub scheme : String
  pub netloc : String
  pub path : String
  pub query : String

pub record Web : Type 0 where
  pub urlparse : String → Result PageUrl
  -- `parse_qs(query).get("version")`
  pub versions : String → Result (List String)
  -- `urlunparse` of a scheme, a host and a path
  pub urlunparse : String → String → String → String
  -- GET, `raise_for_status` and `r.json()`
  pub fetch_json : String → Result Json
  -- `fetch_advisories_page`: GET, `raise_for_status` and `r.text`
  pub fetch_page : String → Result String
  -- What `feed` calls the handlers with.
  pub events : String → Result (List Event)

-- The result of either way; `parsed_ok` as a Boolean.
pub record Parsed : Type 0 where
  pub open_cas : List Json
  pub resolved_cas : List Json
  pub parsed_ok : Bool

init_parts : List String → List String
init_parts [] = []
init_parts (p ∷ []) = []
init_parts (p ∷ q ∷ rest) = p ∷ init_parts (q ∷ rest)

directory_of : List String → String
unfolding init_parts join
directory_of (p ∷ []) = p
directory_of parts = join "/" (init_parts parts)

abbrev first_version : List String → Option String
first_version [] = none
first_version (v ∷ vs) = if truthy v then some v else none

abbrev asset_url : Web → PageUrl → Option String → Option String
asset_url w parsed none = none
asset_url w parsed (some version) = some (
    w.urlunparse parsed.scheme parsed.netloc
      (directory_of (split b'/' parsed.path) <> "/assets/" <> version <> ".json"))

unfoldable pub derive_json_asset_url : Web → String → Result (Option String)
unfolding split directory_of
derive_json_asset_url w advisories_url = do
  parsed ← w.urlparse advisories_url
  (if not (truthy parsed.scheme) || not (truthy parsed.path)
      then ok none
      else (w.versions parsed.query >>= λ versions.
          ok (asset_url w parsed (first_version versions))))

-- `{"id": ..., "component": ..., "title": ..., "url": ...}`
abbrev pub advisory : Json → Json → Json → Json → Json
advisory id component title url =
    object (field "id" id (field "component" component (field "title" title (field "url" url end))))

unfoldable pub cas_from_json : List Json → Result (List Json)
unfolding get
cas_from_json [] = ok []
cas_from_json (item ∷ items) = do
  id ← get item "CA"
  title ← get item "Description"
  url ← get item "CALink"
  rest ← cas_from_json items
  ok (advisory id null title url ∷ rest)

unfoldable pub cas_of : Json → String → Result (List Json)
unfolding get elements_or_nil cas_from_json
cas_of advisories key = do
  j ← get advisories key
  entries ← elements_or_nil j
  cas_from_json entries

abbrev read_asset : Json → Result (Option Parsed)
read_asset (object fs) = do
  open_cas ← cas_of (object fs) "OpendCAs"
  resolved_cas ← cas_of (object fs) "ResolvedCAs"
  ok (some (record { open_cas = open_cas; resolved_cas = resolved_cas; parsed_ok = true }))
read_asset _ = ok none

abbrev asset_advisories : Json → Result Json
asset_advisories (object fs) = get (object fs) "Advisories"
asset_advisories _ = ok null

-- The JSON asset, or the exception of its exchange, which is caught.
abbrev parsed_asset : Result Json → Result (Option Parsed)
parsed_asset (raised e) = ok none
parsed_asset (ok body) = asset_advisories body >>= read_asset

abbrev asset_at : Web → Option String → Result (Option Parsed)
asset_at w none = ok none
asset_at w (some url) = parsed_asset (w.fetch_json url)

unfoldable pub fetch_advisories_json : Web → String → Result (Option Parsed)
unfolding derive_json_asset_url cas_of get
fetch_advisories_json w url = do asset ← derive_json_asset_url w url; asset_at w asset

abbrev text_or_null : Option String → Json
text_or_null none = null
text_or_null (some s) = text s

-- The rest of the text where a pattern matched, and the group before it.
abbrev group_of : Option (String × String) → Option String
group_of none = none
group_of (some (first, rest)) = some (strip first)

abbrev rest_of : String → Option (String × String) → String
rest_of s none = s
rest_of s (some (first, rest)) = strip rest

unfoldable pub split_entry : String → Option String → Json
unfolding match_component match_id strip
split_entry line href =
    let component = match_component line in
    let behind = rest_of line component in
    let id = match_id behind in
    advisory (text_or_null (group_of id)) (text_or_null (group_of component))
      (text (rest_of behind id)) (text_or_null href)

abbrev pub in_section : Section → Section → Bool
in_section open_advisories open_advisories = true
in_section resolved_advisories resolved_advisories = true
in_section _ _ = false

unfoldable pub entries_of : Section → List Entry → List Json
unfolding split_entry
entries_of s [] = []
entries_of s (e ∷ es) =
    let rest = entries_of s es in
    if in_section s e.section then split_entry e.line e.href ∷ rest else rest

abbrev pub no_advisories : Parsed
no_advisories = record { open_cas = []; resolved_cas = []; parsed_ok = false }

abbrev pub read_parser : Parser → Parsed
read_parser p =
    if p.saw_open_heading || p.saw_resolved_heading
    then record {
      open_cas = entries_of open_advisories p.entries;
      resolved_cas = entries_of resolved_advisories p.entries;
      parsed_ok = true;
    }
    else no_advisories

abbrev pub parsed_events : Result (List Event) → Parsed
parsed_events (raised e) = no_advisories
parsed_events (ok events) = read_parser (feed events new_parser)

unfoldable pub parse_advisories_html : Web → String → Parsed
unfolding feed entries_of
parse_advisories_html w html = parsed_events (w.events html)

abbrev or_page : Web → String → Option Parsed → Result Parsed
or_page w url (some parsed) = ok parsed
or_page w url none = do html ← w.fetch_page url; ok (parse_advisories_html w html)

unfoldable pub fetch_and_parse_advisories : Web → String → Result Parsed
unfolding fetch_advisories_json parse_advisories_html
fetch_and_parse_advisories w url = do parsed ← fetch_advisories_json w url; or_page w url parsed
