-- ===== src/Core/IloAi/Coerce.antt =====
-- com-event-core/com_event_core/enrich/ilo_ai.py: `_as_actions` and `_as_confidence`. What Python does
-- with floating-point numbers is the parameter `Floats`, on the texts of the numbers.
use hpe_com_event_integratio.Base.{
  String, ◌<>◌, Bool, true, false, List, [], ◌∷◌, Option, none, some, ◌==◌, truthy, if◌then◌else◌,
}
use hpe_com_event_integratio.Base.Text.{strip, lower, rstrip_char, is_line_break}
use Prim.Native.Char.{code}
use hpe_com_event_integratio.Python.{
  Json, null, bool, number, text, array, object, Result, ok, ◌>>=◌, get, str, ◌or◌, list_of,
}

pub record Floats : Type 0 where
  -- `float(s)`, or nothing for a `ValueError`
  pub parse : String → Option String
  -- `number > 1`
  pub above_one : String → Bool
  -- `number / 100.0`
  pub hundredth : String → String
  -- `max(0.0, min(1.0, number))`
  pub clamp : String → Json
  -- `str` of a list or a dict
  pub repr : Json → String

abbrev onto_line : String → List String → List String
onto_line w lines = if truthy (strip w) then strip w ∷ lines else lines

-- The lines of a text that are not blank, stripped; the first argument is the line so far.
unfoldable pub lines_of : String → String → List String
unfolding strip is_line_break
lines_of w String.[] = onto_line w []
lines_of w (String.◌∷◌ c s) =
    let ended = lines_of "" s in
    let longer = lines_of (w <> String.◌∷◌ c "") s in
    if is_line_break (code c) then onto_line w ended else longer

-- One element of a list of actions.
unfoldable pub action_of : (Json → String) → Json → Result String
unfolding strip get str
action_of repr (text s) = ok (strip s)
action_of repr (object fs) = do
  action ← get (object fs) "action"
  step ← get (object fs) "step"
  ok (strip (str repr (action or step or object fs)))
action_of repr j = ok (strip (str repr j))

unfoldable pub actions_of : (Json → String) → List Json → Result (List String)
unfolding action_of
actions_of repr [] = ok []
actions_of repr (j ∷ js) = do
  action ← action_of repr j
  rest ← actions_of repr js
  ok (if truthy action then action ∷ rest else rest)

unfoldable pub as_actions : (Json → String) → Json → Result (List String)
unfolding lines_of actions_of str
as_actions repr null = ok []
as_actions repr (text s) = ok (lines_of "" s)
as_actions repr (array js) = actions_of repr (list_of js)
as_actions repr j = ok (str repr j ∷ [])

abbrev scaled : Floats → String → Json
scaled f n = if f.above_one n then f.clamp (f.hundredth n) else f.clamp n

abbrev parsed_or_none : Floats → Option String → Json
parsed_or_none f none = null
parsed_or_none f (some n) = scaled f n

abbrev worded : Floats → String → Json
worded f s =
    if s == "high"
    then number true "0.9"
    else if s == "medium"
    then number true "0.6"
    else if s == "moderate"
    then number true "0.6"
    else if s == "low"
    then number true "0.3"
    else parsed_or_none f (f.parse s)

unfoldable pub as_confidence : Floats → Json → Json
unfolding strip lower rstrip_char str
as_confidence f null = null
as_confidence f (number nonzero s) = f.clamp s
as_confidence f (bool true) = f.clamp "1"
as_confidence f (bool false) = f.clamp "0"
as_confidence f j = worded f (rstrip_char b'%' (lower (strip (str f.repr j))))
