-- ===== src/Core/IloAi/Analyze.antt =====
-- com-event-core/com_event_core/enrich/ilo_ai.py: the analysis of an event.
use hpe_com_event_integratio.Base.{
  suc, ◌+◌, String, Bool, ◌∷◌, Option, none, some, truthy, if◌then◌else◌,
}
use hpe_com_event_integratio.Python.{
  Json, text, object, field, end, Fields, runtime_error, assertion_error, Result, ok, raised,
  is_truthy, get, ◌or◌,
}
use hpe_com_event_integratio.Core.Event.{CanonicalEvent, severity_text}
use hpe_com_event_integratio.Core.Com.{Step, Response, is_error, ◌>>=◌, lift}
use hpe_com_event_integratio.Core.Advisories.{cache_get, cache_put}
use hpe_com_event_integratio.Core.Redfish.Bundle.{collect_evidence}
use hpe_com_event_integratio.Core.IloAi.Budget.{take}
use hpe_com_event_integratio.Core.IloAi.Fields.{
  summary_of, root_cause_of, confidence_of, actions_in,
}
use hpe_com_event_integratio.Core.IloAi.Setup.{Setup, State, max_entries}

module _ (c : Setup) where
  abbrev add_field : Bool → String → Json → Fields → Fields
  add_field b k j fs = if b then field k j fs else fs

  -- The body for the analyzer.
  abbrev pub request_body : CanonicalEvent → Json → Json
  request_body e evidence =
      let about : Json = object (
        field "event_id" (text e.event_id) (
          field "title" e.title (
            field "severity" (text (severity_text e.severity)) (
              field "description" e.description (
                field "category" e.category (
                  field "resource_serial" e.resource_serial (
                    field "resource_model" e.resource_model (
                      field "resource_name" e.resource_name
                        (field "time_created" e.time_created end))))))))) in
      let input : Json = object (
        field "event" about (
          field "redfish" evidence
            (add_field (is_truthy e.advisory_evidence) "advisories" e.advisory_evidence end))) in
      object (
        field "input" input (
          field "session_id" (text e.correlation_key or text e.event_id)
            (add_field (truthy c.tenant) "tenant" (text c.tenant) end)))

  -- The result in the analyzer's answer.
  abbrev pub result_in : Json → Result Json
  result_in (text s) = ok (object (field "summary" (text s) end))
  result_in (object fs) = ok (object fs)
  result_in _ = raised runtime_error

  unfoldable pub post : Json → Step State Response
  post body s = (c.analyzer s.attempts body, record s { posts = body ∷ s.posts })

  abbrev pub document_of : Response → Result Json
  document_of r = if is_error r then raised runtime_error else r.document

  abbrev pub read_answer : Response → Step State Json
  read_answer r = do
    body ← lift (document_of r)
    result ← lift (get body "result")
    lift (result_in result)

  -- `_analyze`
  unfoldable pub analyze : CanonicalEvent → Json → Step State Json
  unfolding post get
  analyze event evidence = do r ← post (request_body event evidence); read_answer r

  unfoldable pub assign : Result (CanonicalEvent → CanonicalEvent) → Step State (Unit {0})
  assign (raised e) s = (raised e, s)
  assign (ok f) s = (ok tt, record s { event = f s.event })

  -- `_apply`
  unfoldable pub apply : Json → Step State (Unit {0})
  unfolding assign summary_of root_cause_of confidence_of actions_in
  apply result = do
    _ ← assign (summary_of result)
    _ ← assign (root_cause_of result)
    _ ← assign (confidence_of c.floats result)
    assign (actions_in c.floats result)

  unfoldable pub cached_analysis : String → Step State (Option Json)
  unfolding cache_get
  cached_analysis key s =
      let (found, cache) = cache_get c.ttl s.session.clock key s.cache in
      (ok found, record s { cache = cache })

  unfoldable pub put_analysis : String → Json → Step State (Unit {0})
  unfolding cache_put
  put_analysis key result s =
      (ok tt, record s { cache = cache_put c.ttl max_entries s.session.clock key result s.cache })

  -- `self._budget.take()`
  unfoldable pub take_unit : Step State Bool
  unfolding take
  take_unit s =
      let (granted, budget) = take c.per_hour c.per_day s.session.clock s.budget in
      (ok granted, record s { budget = budget })

  -- `collect_evidence(event.mgmt_url)`, after the assertion; it takes the time of the whole attempt.
  unfoldable pub gather : Option String → Step State Json
  unfolding collect_evidence
  gather none s = (raised assertion_error, s)
  gather (some url) s =
      if truthy url
      then (
        collect_evidence (c.ilo s.attempts) c.max_log c.max_members c.host url,
        record s {
          attempts = suc s.attempts;
          session = record s.session { clock = s.session.clock + c.elapsed s.attempts };
        },
      )
      else (raised assertion_error, s)

  abbrev pub run_analysis : CanonicalEvent → Step State (Unit {0})
  run_analysis event = do
    evidence ← gather event.mgmt_url
    result ← analyze event evidence
    _ ← put_analysis event.correlation_key result
    apply result

  abbrev pub if_granted : CanonicalEvent → Bool → Step State (Unit {0})
  if_granted event granted = if granted then run_analysis event else lift (ok tt)

  abbrev pub or_analyze : CanonicalEvent → Option Json → Step State (Unit {0})
  or_analyze event (some result) = apply result
  or_analyze event none = take_unit >>= if_granted event

  abbrev enrich_event : CanonicalEvent → Step State (Unit {0})
  enrich_event event = cached_analysis event.correlation_key >>= or_analyze event

  -- `enrich`
  unfoldable pub enrich : Step State (Unit {0})
  unfolding cached_analysis take_unit gather analyze put_analysis apply
  enrich s = enrich_event s.event s
