-- ===== src/Core/IloAi/Fields.antt =====
-- com-event-core/com_event_core/enrich/ilo_ai.py: the assignments of `_apply`. A summary and a root cause
-- are taken to be texts.
use hpe_com_event_integratio.Base.{String, Option, none, some, if◌then◌else◌}
use hpe_com_event_integratio.Python.{Json, Result, ok, ◌>>=◌, is_truthy, get, as_text}
use hpe_com_event_integratio.Core.Event.{CanonicalEvent}
use hpe_com_event_integratio.Core.IloAi.Coerce.{Floats, as_actions, as_confidence}

-- `j or None`
unfoldable pub text_or_none : Json → Result (Option String)
unfolding as_text
text_or_none j = if is_truthy j then (as_text j >>= λ s. ok (some s)) else ok none

-- Each assignment as the change that it makes to the event.
unfoldable pub summary_of : Json → Result (CanonicalEvent → CanonicalEvent)
unfolding get text_or_none
summary_of result = do
  j ← get result "summary"
  summary ← text_or_none j
  ok (λ e. record e { analysis_summary = summary })

unfoldable pub root_cause_of : Json → Result (CanonicalEvent → CanonicalEvent)
unfolding get text_or_none
root_cause_of result = do
  j ← get result "likely_root_cause"
  cause ← text_or_none j
  ok (λ e. record e { analysis_root_cause = cause })

unfoldable pub confidence_of : Floats → Json → Result (CanonicalEvent → CanonicalEvent)
unfolding get as_confidence
confidence_of f result = do
  j ← get result "confidence"
  ok (λ e. record e { analysis_confidence = as_confidence f j })

unfoldable pub actions_in : Floats → Json → Result (CanonicalEvent → CanonicalEvent)
unfolding get as_actions
actions_in f result = do
  j ← get result "recommended_actions"
  actions ← as_actions f.repr j
  ok (λ e. record e { analysis_actions = actions })
