-- ===== src/Core/Adapters/Chat/GitHubExchange.antt =====
-- com-event-core/com_event_core/adapters/github.py: `GitHubAdapter.forward`. The HTTP library is the
-- parameter `answer`, which may depend on the calls made before.
use hpe_com_event_integratio.Base.{
  String, ◌<>◌, List, [], ◌∷◌, Option, none, some, ◌==◌, if◌then◌else◌,
}
use hpe_com_event_integratio.Python.{
  Json, array, nil, object, Fields, end, field, runtime_error, type_error, Result, ok, raised,
  get_or, elements,
}
use hpe_com_event_integratio.Core.Event.{CanonicalEvent}
use hpe_com_event_integratio.Core.Render.{Formats}
use hpe_com_event_integratio.Core.Adapters.{is_clear}
use hpe_com_event_integratio.Core.Adapters.Chat.GitHub.{corr_label, issue}
use hpe_com_event_integratio.Core.Com.{Step, ◌>>=◌, lift, Response, is_error}

-- A call of the REST API; an issue's number is what the search returned.
pub data Call : Type 0 where
  create_issue : Json → Call
  search_issues : String → Call
  add_comment : Json → String → Call
  close_issue : Json → Call

pub record State : Type 0 where
  pub calls : List Call

module _ (repo : String) (answer : List Call → Call → Result Response) where
  unfoldable pub send : Call → Step State Response
  send call s = (answer s.calls call, record s { calls = call ∷ s.calls })

  -- `raise_for_status()`
  abbrev pub raise_for_status : Response → Result (Unit {0})
  raise_for_status r = if is_error r then raised runtime_error else ok tt

  abbrev pub document_of : Response → Result Json
  document_of r = if is_error r then raised runtime_error else r.document

  -- `_create`
  unfoldable pub create : String → List String → Formats → CanonicalEvent → Step State (Unit {0})
  unfolding issue send
  create marker extra_labels f e = do
    payload ← lift (issue marker extra_labels f e)
    r ← send (create_issue payload)
    lift (raise_for_status r)

  abbrev number_of : Fields → Option Json
  number_of end = none
  number_of (field k v fs) = if k == "number" then some v else number_of fs

  abbrev onto_numbers : Option Json → List Json → List Json
  onto_numbers none numbers = numbers
  onto_numbers (some n) numbers = n ∷ numbers

  -- `[it["number"] for it in items if "number" in it]`
  unfoldable pub numbers_of : List Json → Result (List Json)
  numbers_of [] = ok []
  numbers_of (object fs ∷ its) =
      let rest = numbers_of its in
      elim rest [ raised e ↦ raised e | ok numbers ↦ ok (onto_numbers (number_of fs) numbers) ]
  numbers_of (it ∷ its) = raised type_error

  abbrev pub found_numbers : Response → Result (List Json)
  found_numbers r = elim (document_of r) [
    | raised e ↦ raised e
    | ok body ↦ elim (get_or body "items" (array nil)) [
      | raised e ↦ raised e
      | ok items ↦ elim (elements items) [ raised e ↦ raised e | ok its ↦ numbers_of its ]
    ]
  ]

  -- The two calls for an issue.
  unfoldable pub close_number : CanonicalEvent → Json → Step State (Unit {0})
  unfolding send
  close_number e n = do
    commented ← send (add_comment n ("Resolved by COM clear event `" <> e.event_id <> "`."))
    _ ← lift (raise_for_status commented)
    closed ← send (close_issue n)
    lift (raise_for_status closed)

  unfoldable pub close_each : CanonicalEvent → List Json → Step State (Unit {0})
  unfolding close_number
  close_each e [] = lift (ok tt)
  close_each e (n ∷ numbers) = do _ ← close_number e n; close_each e numbers

  abbrev pub query : String → String
  query label = "repo:" <> repo <> " is:issue is:open label:\"" <> label <> "\""

  -- `_close`
  unfoldable pub close : CanonicalEvent → Step State (Unit {0})
  unfolding send numbers_of close_each get_or elements
  close e = do
    r ← send (search_issues (query (corr_label e)))
    numbers ← lift (found_numbers r)
    close_each e numbers

  -- `forward`
  unfoldable pub forward : String → List String → Formats → CanonicalEvent → Step State (Unit {0})
  unfolding create close
  forward marker extra_labels f e =
      if is_clear e.action then close e else create marker extra_labels f e
