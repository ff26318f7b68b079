-- ===== src/Core/Normalize/Monitors.antt =====
-- SERVER_MONITORS: `_enabled_monitors` and the keys of `_SERVER_CONDITIONS` in normalize.py.
use hpe_com_event_integratio.Base.{
  String, Bool, true, false, List, [], ◌∷◌, ◌++◌, Option, none, some, ◌==◌, ◌||◌, if◌then◌else◌,
}
use hpe_com_event_integratio.Base.Text.{truthy, strip, lower, split}
use hpe_com_event_integratio.Python.{Result, ok, raised, value_error, ◌>>=◌}

pub data Condition : Type 0 where
  health power connection subscription : Condition

abbrev pub condition_name : Condition → String
condition_name health = "health"
condition_name power = "power"
condition_name connection = "connection"
condition_name subscription = "subscription"

-- `n in _SERVER_CONDITIONS`
unfoldable pub find_condition : String → Option Condition
find_condition n =
    if n == "health"
    then some health
    else if n == "power"
    then some power
    else if n == "connection"
    then some connection
    else if n == "subscription"
    then some subscription
    else none

abbrev pub same : Condition → Condition → Bool
same health health = true
same power power = true
same connection connection = true
same subscription subscription = true
same _ _ = false

unfoldable pub has : List Condition → Condition → Bool
has [] c = false
has (d ∷ ds) c = same d c || has ds c

-- `[s.strip().lower() for s in raw.split(",") if s.strip()]`
unfoldable pub clean_names : List String → List String
clean_names [] = []
clean_names (s ∷ parts) =
    let rest = clean_names parts in if truthy (strip s) then lower (strip s) ∷ rest else rest

-- One round of the loop: an unknown name raises, a known one is added where it is new.
unfoldable pub add_condition : Option Condition → List Condition → Result (List Condition)
unfolding has
add_condition none ordered = raised value_error
add_condition (some c) ordered = ok (if has ordered c then ordered else ordered ++ c ∷ [])

unfoldable pub add_names : List String → List Condition → Result (List Condition)
unfolding find_condition
add_names [] ordered = ok ordered
add_names (n ∷ names) ordered = do
  more ← add_condition (find_condition n) ordered
  add_names names more

abbrev pub or_default : List String → Result (List Condition)
or_default [] = ok (health ∷ [])
or_default (n ∷ names) = add_names (n ∷ names) []

unfoldable pub enabled_monitors : String → Result (List Condition)
unfolding clean_names
enabled_monitors raw = or_default (clean_names (split b',' raw))
