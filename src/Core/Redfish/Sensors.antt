-- ===== src/Core/Redfish/Sensors.antt =====
-- com-event-core/com_event_core/enrich/redfish.py: the health of a resource, and the sensors that are
-- kept.
use hpe_com_event_integratio.Base.{
  ℕ, String, ◌<>◌, Bool, true, false, List, [], ◌∷◌, ◌++◌, Option, none, some, contains, length,
  ◌==◌, if◌then◌else◌,
}
use hpe_com_event_integratio.Base.Text.{decimal, strip, lower}
use hpe_com_event_integratio.Python.{
  Json, null, bool, number, text, array, object, Items, nil, cons, Fields, field, end, Result, ok,
  raised, ◌>>=◌, attribute_error, is_truthy, get, get_dict, str, ◌or◌, list_of,
}

-- The numbers of a document, by their texts, and `str` of a list or a dict.
pub record Numbers : Type 0 where
  pub at_most : String → String → Bool
  pub repr : Json → String

-- `_HEALTHY`
abbrev pub healthy : List String
healthy = "ok" ∷ "enabled" ∷ "absent" ∷ "" ∷ "none" ∷ []

-- `str(j or "").strip().lower()`
unfoldable pub state_text : Numbers → Json → String
unfolding str strip lower
state_text n j = lower (strip (str n.repr (j or text "")))

-- `_health_of`
unfoldable pub health_of : Numbers → Json → Result String
unfolding get get_dict state_text
health_of n resource = do
  status ← get_dict resource "Status"
  health ← get status "Health"
  ok (state_text n health)

abbrev pub is_healthy : String → Bool
is_healthy health = contains healthy health

-- `isinstance(j, (int, float))`, which holds for a Boolean too
abbrev number_text : Json → Option String
number_text (number nonzero s) = some s
number_text (bool true) = some "1"
number_text (bool false) = some "0"
number_text _ = none

abbrev reaches : (String → String → Bool) → String → Json → Bool
reaches past reading limit = elim (number_text limit) [
  | none ↦ false
  | some l ↦ if is_truthy limit then past reading l else false
]

abbrev any_reached : Numbers → Json → Option String → Result Bool
any_reached n entry none = ok false
any_reached n entry (some reading) = do
  high ← get entry "UpperThresholdCritical"
  high_warning ← get entry "UpperThresholdNonCritical"
  low ← get entry "LowerThresholdCritical"
  low_warning ← get entry "LowerThresholdNonCritical"
  ok (
      if reaches (λ r l. n.at_most l r) reading high
      then true
      else if reaches (λ r l. n.at_most l r) reading high_warning
      then true
      else if reaches n.at_most reading low
      then true
      else reaches n.at_most reading low_warning)

abbrev or_reading : Json → Json → Json
or_reading null other = other
or_reading j other = j

-- `_crosses_threshold`
unfoldable pub crosses_threshold : Numbers → Json → Result Bool
unfolding get
crosses_threshold n entry = do
  celsius ← get entry "ReadingCelsius"
  plain ← get entry "Reading"
  any_reached n entry (number_text (or_reading celsius plain))

-- The condition of the comprehension.
unfoldable pub is_kept : Numbers → Json → Result Bool
unfolding health_of crosses_threshold
is_kept n entry = do
  health ← health_of n entry
  (if is_healthy health then crosses_threshold n entry else ok true)

unfoldable pub keep_entries : Numbers → List Json → Result (List Json)
unfolding is_kept
keep_entries n [] = ok []
keep_entries n (e ∷ es) = do
  kept ← is_kept n e
  rest ← keep_entries n es
  ok (if kept then e ∷ rest else rest)

abbrev pub items_of : List Json → Items
items_of [] = nil
items_of (j ∷ js) = cons j (items_of js)

-- `d[k] = v`
unfoldable pub set_field : String → Json → Fields → Fields
set_field k v end = field k v end
set_field k v (field j w fs) =
    let rest = set_field k v fs in if j == k then field k v fs else field j w rest

abbrev kept_line : String → String → ℕ → ℕ → String
kept_line path name kept total =
    path
    <> ":"
    <> name
    <> " kept "
    <> decimal kept
    <> " of "
    <> decimal total
    <> " (unhealthy or threshold-crossing only)"

-- One turn of the loop over `_TRIMMED_ARRAYS`, for the value under the name.
abbrev trim_one :
    Numbers → String → String → Json → Fields × List String → Result (Fields × List String)
trim_one n path name (array (cons j js)) (fs, lines) = do
  kept ← keep_entries n (list_of (cons j js))
  ok (
    set_field name (array (items_of kept)) fs,
    lines ++ kept_line path name (length kept) (length (list_of (cons j js))) ∷ [],
  )
trim_one n path name _ (fs, lines) = ok (fs, lines)

unfoldable pub trim_names :
    Numbers → String → Json → List String → Fields × List String → Result (Fields × List String)
unfolding keep_entries set_field decimal get
trim_names n path resource [] so_far = ok so_far
trim_names n path resource (name ∷ names) so_far = do
  entries ← get resource name
  next ← trim_one n path name entries so_far
  trim_names n path resource names next

-- `_trim_arrays`: the trimmed resource, and the lines for the bundle's `trimmed`.
unfoldable pub trim_arrays : Numbers → String → Json → Result (Json × List String)
unfolding trim_names
trim_arrays n path (object fs) = do
  (trimmed, lines) ←
      trim_names n path (object fs) ("Temperatures" ∷ "Fans" ∷ "PowerSupplies" ∷ []) (fs, [])
  ok (object trimmed, lines)
trim_arrays n path _ = raised attribute_error
