-- ===== src/Core/Adapters/Jira/Exchange.antt =====
-- com-event-core/com_event_core/adapters/jira.py: `JiraAdapter.forward`. The HTTP library is the
-- parameter `answer`, which may depend on the calls made before. The key of an issue and the name of a
-- transition are taken to be texts.
use hpe_com_event_integratio.Base.{
  String, ◌<>◌, List, [], ◌∷◌, Option, none, some, ◌==◌, if◌then◌else◌,
}
use hpe_com_event_integratio.Base.Text.{strip, lower}
use hpe_com_event_integratio.Python.{
  Json, text, array, nil, runtime_error, Result, ok, raised, is_truthy, get, get_or, as_text,
  elements,
}
use hpe_com_event_integratio.Core.Event.{CanonicalEvent}
use hpe_com_event_integratio.Core.Render.{Formats, item}
use hpe_com_event_integratio.Core.Adapters.{is_clear}
use hpe_com_event_integratio.Core.Adapters.Jira.{Jira, corr_label, create_fields}
use hpe_com_event_integratio.Core.Com.{Step, ◌>>=◌, lift, Response, is_error}

-- A call of the REST API.
pub data Call : Type 0 where
  create_issue : Json → Call
  search_issues : String → Call
  get_transitions : String → Call
  do_transition : String → Json → Call

pub record State : Type 0 where
  pub calls : List Call

module _ (c : Jira) (answer : List Call → Call → Result Response) where
  unfoldable pub send : Call → Step State Response
  send call s = (answer s.calls call, record s { calls = call ∷ s.calls })

  -- `_check`, whose exception is taken as a `RuntimeError` whatever the texts in the answer are
  abbrev pub check : Response → Result Json
  check r = if is_error r then raised runtime_error else r.document

  -- The status alone is looked at, where the body is not used.
  abbrev pub check_only : Response → Result (Unit {0})
  check_only r = if is_error r then raised runtime_error else ok tt

  -- `_create`
  unfoldable pub create : Formats → CanonicalEvent → Step State (Unit {0})
  unfolding create_fields send
  create f e = do
    fields ← lift (create_fields c f e)
    r ← send (create_issue fields)
    lift (check_only r)

  -- `t.get("name", "").strip().lower()`
  unfoldable pub transition_name : Json → Result String
  unfolding get_or as_text strip lower
  transition_name t = elim (get_or t "name" (text "")) [
    | raised e ↦ raised e
    | ok name ↦ elim (as_text name) [ raised e ↦ raised e | ok s ↦ ok (lower (strip s)) ]
  ]

  -- The first transition of that name.
  unfoldable pub find_transition : String → List Json → Result (Option Json)
  unfolding transition_name
  find_transition wanted [] = ok none
  find_transition wanted (t ∷ ts) =
      let rest = find_transition wanted ts in
      elim (transition_name t) [
        | raised e ↦ raised e
        | ok name ↦ if name == wanted then ok (some t) else rest
      ]

  abbrev pub id_of : Option Json → Result Json
  id_of none = raised runtime_error
  id_of (some t) = item t "id"

  -- `_transition`
  unfoldable pub transition : String → Step State (Unit {0})
  unfolding send find_transition get_or elements item strip lower
  transition key = do
    tr ← send (get_transitions key)
    body ← lift (check tr)
    j ← lift (get_or body "transitions" (array nil))
    list ← lift (elements j)
    match ← lift (find_transition (lower (strip c.close_transition)) list)
    id ← lift (id_of match)
    r ← send (do_transition key id)
    lift (check_only r)

  unfoldable pub transition_each : List String → Step State (Unit {0})
  unfolding transition
  transition_each [] = lift (ok tt)
  transition_each (key ∷ keys) = do _ ← transition key; transition_each keys

  -- `it.get("key") or it["id"]`
  unfoldable pub key_of : Json → Result String
  unfolding get item as_text
  key_of it = elim (get it "key") [
    | raised e ↦ raised e
    | ok key ↦
        if is_truthy key
        then as_text key
        else elim (item it "id") [ raised e ↦ raised e | ok id ↦ as_text id ]
  ]

  unfoldable pub keys_of : List Json → Result (List String)
  unfolding key_of
  keys_of [] = ok []
  keys_of (it ∷ its) =
      let rest = keys_of its in
      elim (key_of it) [
        | raised e ↦ raised e
        | ok key ↦ elim rest [ raised e ↦ raised e | ok keys ↦ ok (key ∷ keys) ]
      ]

  abbrev pub jql : String → String
  jql label =
      "project = \"" <> c.project <> "\" AND labels = \"" <> label
      <> "\" AND statusCategory != Done"

  -- The issues of the answer to the search.
  abbrev pub found_keys : Response → Result (List String)
  found_keys r = elim (check r) [
    | raised e ↦ raised e
    | ok body ↦ elim (get_or body "issues" (array nil)) [
      | raised e ↦ raised e
      | ok issues ↦ elim (elements issues) [ raised e ↦ raised e | ok its ↦ keys_of its ]
    ]
  ]

  -- `_close`
  unfoldable pub close : CanonicalEvent → Step State (Unit {0})
  unfolding send keys_of transition_each corr_label get_or elements
  close e = do
    r ← send (search_issues (jql (corr_label e)))
    keys ← lift (found_keys r)
    transition_each keys

  -- `forward`
  unfoldable pub forward : Formats → CanonicalEvent → Step State (Unit {0})
  unfolding create close
  forward f e = if is_clear e.action then close e else create f e
