-- ===== src/Core/Advisories/Patterns.antt =====
-- com-event-core/com_event_core/enrich/advisories.py: its regular expressions, each as a function on
-- the texts that it is used on.
use hpe_com_event_integratio.Base.{
  ℕ, zero, suc, String, ◌<>◌, Bool, true, false, List, [], ◌∷◌, Option, none, some, ◌||◌, ◌&&◌, leb,
  nat_eq, truthy, if◌then◌else◌,
}
use Prim.Native.Char.{Char, code}
use hpe_com_event_integratio.Base.Text.{lower, strip, join, is_space}

-- The word before, and the rest that it is put in front of.
abbrev pub emit : String → List String → List String
emit w rest = if truthy w then w ∷ rest else rest

-- `s.split()`, where the first argument is the word so far.
unfoldable pub split_spaces : String → String → List String
split_spaces w String.[] = emit w []
split_spaces w (String.◌∷◌ c s) =
    let ended = split_spaces "" s in
    let longer = split_spaces (w <> String.◌∷◌ c "") s in
    if is_space (code c) then emit w ended else longer

-- `" ".join(s.split())`
unfoldable pub squeeze : String → String
unfolding split_spaces
squeeze s = join " " (split_spaces "" s)

-- The letters that `re.IGNORECASE` takes for an ASCII one, beside the capitals.
fold_char : ℕ → Char → String
fold_char n c =
    if nat_eq n 0x17f
    then "s"
    else if nat_eq n 0x130 || nat_eq n 0x131
    then "i"
    else String.◌∷◌ c ""

unfoldable pub fold_case : String → String
unfolding fold_char
fold_case String.[] = ""
fold_case (String.◌∷◌ c s) = fold_char (code c) c <> fold_case s

-- What follows a text at the beginning of another.
after : String → String → Option String
after String.[] s = some s
after (String.◌∷◌ a w) String.[] = none
after (String.◌∷◌ a w) (String.◌∷◌ c s) =
    let rest = after w s in if nat_eq (code a) (code c) then rest else none

skip_spaces : String → String
skip_spaces String.[] = ""
skip_spaces (String.◌∷◌ c s) =
    let rest = skip_spaces s in if is_space (code c) then rest else String.◌∷◌ c s

-- `\s+`
some_spaces : String → Option String
unfolding skip_spaces
some_spaces String.[] = none
some_spaces (String.◌∷◌ c s) = if is_space (code c) then some (skip_spaces s) else none

abbrev then_try : Option String → (String → Option String) → Option String
then_try none f = none
then_try (some s) f = f s

abbrev matched : Option String → Bool
matched none = false
matched (some s) = true

-- `first\s+customer\s+advisor` at the beginning of the text
heading_here : String → String → Bool
unfolding after some_spaces
heading_here first s = matched (
    then_try (after first s) (λ a. then_try (some_spaces a) (λ b.
      then_try (after "customer" b) (λ c. then_try (some_spaces c) (λ d. after "advisor" d)))))

-- `search`
unfoldable pub has_heading : String → String → Bool
unfolding heading_here
has_heading first String.[] = false
has_heading first (String.◌∷◌ c s) = heading_here first (String.◌∷◌ c s) || has_heading first s

-- `_OPEN_HEADING` and `_RESOLVED_HEADING`
unfoldable pub is_open_heading : String → Bool
unfolding has_heading fold_case
is_open_heading s = has_heading "open" (fold_case (lower s))

unfoldable pub is_resolved_heading : String → Bool
unfolding has_heading fold_case
is_resolved_heading s = has_heading "resolved" (fold_case (lower s))

-- `[A-Za-z0-9]`
unfoldable pub is_alphanumeric : ℕ → Bool
is_alphanumeric n =
    (leb b'A' n && leb n b'Z') || (leb b'a' n && leb n b'z') || (leb b'0' n && leb n b'9')

-- `[A-Za-z0-9._-]`
unfoldable pub is_id_char : ℕ → Bool
unfolding is_alphanumeric
is_id_char n = is_alphanumeric n || nat_eq n b'.' || nat_eq n b'_' || nat_eq n b'-'

-- A colon, a hyphen or an en dash.
is_separator : ℕ → Bool
is_separator n = nat_eq n b':' || nat_eq n b'-' || nat_eq n 0x2013

abbrev nonempty : String → Option String
nonempty s = if truthy s then some s else none

title_behind : String → Option String
unfolding is_separator skip_spaces
title_behind String.[] = none
title_behind (String.◌∷◌ c s) = if is_separator (code c) then nonempty (skip_spaces s) else none

abbrev onto_id : Char → Option (String × String) → Option (String × String)
onto_id c none = none
onto_id c (some (id, title)) = some (String.◌∷◌ c id, title)

abbrev ended_id : ℕ → Option String → Option (String × String)
ended_id zero (some title) = some ("", title)
ended_id _ _ = none

abbrev or_else : Option (String × String) → Option (String × String) → Option (String × String)
or_else (some m) other = some m
or_else none other = other

abbrev predecessor : ℕ → ℕ
predecessor zero = 0
predecessor (suc n) = n

-- The id and the title, for the longest id that fits; the number of characters that the id lacks.
id_match : ℕ → String → Option (String × String)
unfolding title_behind skip_spaces is_id_char
id_match lacking String.[] = none
id_match lacking (String.◌∷◌ c s) =
    let longer = id_match (predecessor lacking) s in
    or_else (if is_id_char (code c) then onto_id c longer else none)
      (ended_id lacking (title_behind (skip_spaces (String.◌∷◌ c s))))

-- `_ID_PREFIX.match`, on a text that `squeeze` or `strip` returned.
unfoldable pub match_id : String → Option (String × String)
unfolding id_match
match_id String.[] = none
match_id (String.◌∷◌ c s) = if is_alphanumeric (code c) then onto_id c (id_match 2 s) else none

-- What stands before and behind a closing bracket.
to_bracket : String → Option (String × String)
to_bracket String.[] = none
to_bracket (String.◌∷◌ c s) =
    let longer = to_bracket s in if nat_eq (code c) b']' then some ("", s) else onto_id c longer

abbrev component_if : Option (String × String) → Option (String × String)
component_if none = none
component_if (some (component, title)) =
    if truthy component && truthy title then some (component, title) else none

abbrev skip_title : Option (String × String) → Option (String × String)
skip_title none = none
skip_title (some (component, title)) = some (component, strip title)

-- `_COMPONENT_PREFIX.match`, on such a text.
unfoldable pub match_component : String → Option (String × String)
unfolding to_bracket
match_component String.[] = none
match_component (String.◌∷◌ c s) =
    if nat_eq (code c) b'[' then component_if (skip_title (to_bracket s)) else none
