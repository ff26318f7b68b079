-- ===== src/Core/Adapters/Jira/Closed.antt =====
-- What closing an issue does.
use hpe_com_event_integratio.Base.{
  String, true, List, [], ◌∷◌, ◌≡◌, inl, inr, refl, All, Bool-cases, Any,
}
use Prim.Native.Char.{code}
use hpe_com_event_integratio.Base.Text.{lower, strip, all_chars}
use hpe_com_event_integratio.Python.{Json, array, nil, text, Result, ok, get_or, elements}
use hpe_com_event_integratio.Core.Render.{item}
use hpe_com_event_integratio.Core.Adapters.Jira.{Jira, sanitised, is_label_char}
use hpe_com_event_integratio.Core.Adapters.Jira.Exchange.{
  Call, get_transitions, do_transition, State, check,
}
use hpe_com_event_integratio.Core.Com.{Response}

module _ (c : Jira) (answer : List Call → Call → Result Response) where
  -- A transition with the name that is configured, but for spaces around it and the case.
  abbrev pub IsWanted : Json → Type 0
  IsWanted t =
      (name : String) × (get_or t "name" (text "") ≡ ok (text name))
      × (lower (strip name) ≡ lower (strip c.close_transition))

  -- Jira was asked for the transitions of the issue, and among its answer was one with that name.
  abbrev pub IsOffered : String → Json → Type 0
  IsOffered key t =
      (calls : List Call) × (r : Response) × (body : Json) × (j : Json) × (list : List Json)
      × (answer calls (get_transitions key) ≡ ok r)
      × (check c answer r ≡ ok body)
      × (get_or body "transitions" (array nil) ≡ ok j)
      × (elements j ≡ ok list)
      × Any (λ (i : Json). i ≡ t) list

  -- The issue has been given the wanted transition, by its id.
  abbrev pub IsDone : String → State → Type 0
  IsDone key s =
      (t : Json) × (id : Json) × IsWanted t
      × IsOffered key t
      × (item t "id" ≡ ok id)
      × Any (λ (call : Call). call ≡ do_transition key id) s.calls

  AllDone : List String → State → Type 0
  AllDone keys s = All (λ key. IsDone key s) keys

-- The sanitised key has the characters that a label of Jira may have, and no others.
pub sanitised-is_label_char : (s : String) → all_chars is_label_char (sanitised s) ≡ true
unfolding sanitised all_chars is_label_char
sanitised-is_label_char String.[] = refl
sanitised-is_label_char (String.◌∷◌ c s) = elim (Bool-cases (is_label_char (code c))) [
  | inl e ↦ rw (e, e, sanitised-is_label_char s) refl
  | inr e ↦ rw (e, sanitised-is_label_char s) refl
]
