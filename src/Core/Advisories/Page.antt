-- ===== src/Core/Advisories/Page.antt =====
-- com-event-core/com_event_core/enrich/advisories.py: the reading of an advisory page. `HTMLParser`
-- turns a page into a sequence of events, one for each call of a handler; each handler is a step on the
-- state of `_AdvisorySectionParser`.
use hpe_com_event_integratio.Base.{
  ℕ, ◌+◌, ◌-◌, String, Bool, true, false, List, [], ◌∷◌, ◌++◌, Option, none, some, not, ◌&&◌, ◌==◌,
  contains, ltb, nat_eq, truthy, if◌then◌else◌,
}
use hpe_com_event_integratio.Base.Text.{strip, join}
use hpe_com_event_integratio.Base.Dict.{lookup, insert}
use hpe_com_event_integratio.Core.Advisories.Patterns.{
  is_open_heading, is_resolved_heading, squeeze,
}

pub data Section : Type 0 where
  open_advisories resolved_advisories : Section

-- A call of `handle_starttag`, `handle_endtag` or `handle_data`.
pub data Event : Type 0 where
  start_tag : String → List (String × Option String) → Event
  end_tag : String → Event
  data_text : String → Event

-- An element of `entries`.
pub record Entry : Type 0 where
  pub section : Section
  pub line : String
  pub href : Option String

pub record Parser : Type 0 where
  pub section : Option Section
  pub in_heading : Bool
  pub heading_text : List String
  pub entry_depth : ℕ
  pub entry_text : List String
  pub entry_href : Option String
  pub entry_is_header_row : Bool
  pub saw_open_heading : Bool
  pub saw_resolved_heading : Bool
  pub entries : List Entry

abbrev pub new_parser : Parser
new_parser = record {
  section = none;
  in_heading = false;
  heading_text = [];
  entry_depth = 0;
  entry_text = [];
  entry_href = none;
  entry_is_header_row = false;
  saw_open_heading = false;
  saw_resolved_heading = false;
  entries = [];
}

abbrev heading_tags : List String
heading_tags = "h1" ∷ "h2" ∷ "h3" ∷ "h4" ∷ []

abbrev entry_tags : List String
entry_tags = "li" ∷ "tr" ∷ []

abbrev pub has_section : Option Section → Bool
has_section none = false
has_section (some s) = true

abbrev has_href : Option String → Bool
has_href none = false
has_href (some h) = true

-- `dict(attrs)`: a later attribute of the same name counts.
as_dict :
    List (String × Option String) → List (String × Option String) → List (String × Option String)
as_dict [] d = d
as_dict ((k, v) ∷ attrs) d = as_dict attrs (insert k v d)

abbrev link_of : Option (Option String) → Option String
link_of (some (some h)) = if truthy h then some h else none
link_of _ = none

-- The first `<li>` or `<tr>` starts an entry, one inside it does not.
abbrev pub open_entry : Parser → Parser
open_entry p =
    if nat_eq p.entry_depth 0
    then record p {
      entry_depth = 1;
      entry_text = [];
      entry_href = none;
      entry_is_header_row = false;
    }
    else record p { entry_depth = p.entry_depth + 1 }

unfoldable pub handle_starttag : String → List (String × Option String) → Parser → Parser
unfolding as_dict
handle_starttag tag attrs p =
    if contains heading_tags tag
    then record p { in_heading = true; heading_text = [] }
    else if contains entry_tags tag && has_section p.section
    then open_entry p
    else if tag == "th" && ltb 0 p.entry_depth
    then record p { entry_is_header_row = true }
    else if tag == "a" && (ltb 0 p.entry_depth && not (has_href p.entry_href))
    then record p { entry_href = link_of (lookup "href" (as_dict attrs [])) }
    else p

-- A heading that names neither section keeps the current one.
unfoldable pub close_heading : String → Parser → Parser
close_heading heading p =
    if is_open_heading heading
    then record p { in_heading = false; section = some open_advisories; saw_open_heading = true }
    else if is_resolved_heading heading
    then record p {
      in_heading = false;
      section = some resolved_advisories;
      saw_resolved_heading = true;
    }
    else record p { in_heading = false }

abbrev pub entry_of : Option Section → String → Option String → Bool → List Entry
entry_of none line href header = []
entry_of (some s) line href header =
    if truthy line && not header then record { section = s; line = line; href = href } ∷ [] else []

unfoldable pub close_entry : Parser → Parser
close_entry p =
    let depth : ℕ = p.entry_depth - 1 in
    let line : String = squeeze (join " " p.entry_text) in
    record p {
      entry_depth = depth;
      entries =
          (if nat_eq depth 0
            then p.entries ++ entry_of p.section line p.entry_href p.entry_is_header_row
            else p.entries);
    }

unfoldable pub handle_endtag : String → Parser → Parser
unfolding close_heading close_entry
handle_endtag tag p =
    if contains heading_tags tag && p.in_heading
    then close_heading (strip (join " " p.heading_text)) p
    else if contains entry_tags tag && ltb 0 p.entry_depth
    then close_entry p
    else p

unfoldable pub handle_data : String → Parser → Parser
handle_data data_ p =
    if p.in_heading
    then record p { heading_text = p.heading_text ++ strip data_ ∷ [] }
    else if ltb 0 p.entry_depth && truthy (strip data_)
    then record p { entry_text = p.entry_text ++ strip data_ ∷ [] }
    else p

unfoldable pub handle : Event → Parser → Parser
unfolding handle_starttag handle_endtag handle_data
handle (start_tag tag attrs) p = handle_starttag tag attrs p
handle (end_tag tag) p = handle_endtag tag p
handle (data_text s) p = handle_data s p

-- `feed`
unfoldable pub feed : List Event → Parser → Parser
unfolding handle
feed [] p = p
feed (e ∷ es) p = feed es (handle e p)
