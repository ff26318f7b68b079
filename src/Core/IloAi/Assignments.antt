-- ===== src/Core/IloAi/Assignments.antt =====
-- What the assignments to the event leave alone.
use hpe_com_event_integratio.Python.{Json, Result, ok, raised}
use hpe_com_event_integratio.Core.Event.{CanonicalEvent}
use hpe_com_event_integratio.Core.Com.{Step, ◌>>=◌}
use hpe_com_event_integratio.Core.Com.Steps.{Keeps, >>=-Keeps}
use hpe_com_event_integratio.Core.IloAi.Fields.{
  summary_of, root_cause_of, confidence_of, actions_in,
}
use hpe_com_event_integratio.Core.IloAi.Setup.{Setup, State}
use hpe_com_event_integratio.Core.IloAi.Analyze.{assign, apply}

-- For a property of the state that no change of the event touches.
module _ (c : Setup) (I : State → Type 0)
    (closed : (s : State) (f : CanonicalEvent → CanonicalEvent)
      → I s
      → I (record s { event = f s.event })) where
  assign-Keeps : (r : Result (CanonicalEvent → CanonicalEvent)) → Keeps I (assign c r)
  unfolding assign
  assign-Keeps (ok f) s h = closed s f h
  assign-Keeps (raised e) s h = h

  then_assign :
      (r : Result (CanonicalEvent → CanonicalEvent)) (m : Step State (Unit {0}))
      → Keeps I m
      → Keeps I (assign c r >>= λ _. m)
  then_assign r m hm = >>=-Keeps I (assign c r) (λ _. m) (assign-Keeps r) (λ _. hm)

  pub apply-Keeps : (result : Json) → Keeps I (apply c result)
  unfolding apply
  apply-Keeps result =
      let last = assign c (actions_in c.floats result) in
      let third = assign c (confidence_of c.floats result) >>= λ _. last in
      let second = assign c (root_cause_of result) >>= λ _. third in
      then_assign (summary_of result) second (
        then_assign (root_cause_of result) third (
          then_assign (confidence_of c.floats result) last
            (assign-Keeps (actions_in c.floats result))))
