-- ===== src/Tests/Delivery.antt =====
-- Deliveries to a target that fails once and to one that always answers.
use hpe_com_event_integratio.Base.{
  ◌+◌, ◌≤◌, false, List, [], ◌∷◌, ◌≡◌, refl, arith, nat_eq, if◌then◌else◌,
}
use hpe_com_event_integratio.Base.Dict.{lookup}
use hpe_com_event_integratio.Python.{ok, raised, target_error, partial_delivery}
use hpe_com_event_integratio.Core.Event.{CanonicalEvent, blank}
use hpe_com_event_integratio.Core.Dedup.{already_done, mark_done}
use hpe_com_event_integratio.Core.Dedup.Window.{already_done-mark_done}
use hpe_com_event_integratio.Core.Deliver.{
  TargetAdapter, Station, Line, skipped, failed, delivered, deliver_one, deliver_events,
  failures_of,
}
use hpe_com_event_integratio.Core.Deliver.Walk.{pairs}
use hpe_com_event_integratio.Core.Deliver.Outcomes.{Logs, deliver_events-one_line_each}
use hpe_com_event_integratio.Core.Deliver.Once.{
  NoRepeats, delivered_keys, deliver_batches, deliver_batches-at_most_once,
}
use hpe_com_event_integratio.Core.Deliver.Retry.{after_first}

-- Fails at its first call.
abbrev flaky : TargetAdapter
flaky = record {
  name = "jira";
  forward = λ calls event. record {
    outcome = if nat_eq calls 0 then raised (target_error "timeout") else ok tt;
    elapsed = 2;
  };
}

abbrev steady : TargetAdapter
steady = record { name = "slack"; forward = λ calls event. record { outcome = ok tt; elapsed = 1 } }

abbrev targets : List TargetAdapter
targets = flaky ∷ steady ∷ []

abbrev event : CanonicalEvent
event = record blank { event_id = "e1"; dedup_key = "k1" }

abbrev batch : List CanonicalEvent
batch = event ∷ []

abbrev station : Station
station = record { clock = 1000; calls = 0; seen = []; log = [] }

-- The first target fails and the second has its copy; a retry calls the first one alone.
first_run : deliver_events 3600 batch targets station ≡ (
  raised (partial_delivery ("jira" ∷ [])),
  record {
    clock = 1003;
    calls = 2;
    seen = ("k1:slack", 1003) ∷ [];
    log = delivered "k1:slack" ∷ failed "k1:jira" ∷ [];
  },
)
unfolding deliver_events deliver_one already_done mark_done
first_run = refl

second_run : deliver_events 3600 batch targets (after_first 3600 batch targets 0 station) ≡ (
  ok tt,
  record {
    clock = 1005;
    calls = 3;
    seen = ("k1:slack", 1003) ∷ ("k1:jira", 1005) ∷ [];
    log = skipped "k1:slack" ∷ delivered "k1:jira" ∷ delivered "k1:slack" ∷ failed "k1:jira" ∷ [];
  },
)
unfolding deliver_events deliver_one already_done mark_done
second_run = refl

batches_clock : (deliver_batches 3600 (batch ∷ batch ∷ []) targets station).clock ≤ 1000 + 3600
unfolding deliver_batches deliver_one already_done mark_done
batches_clock = omega arith

deliver_batches-at_most_once_example :
    NoRepeats (delivered_keys (deliver_batches 3600 (batch ∷ batch ∷ []) targets station).log)
deliver_batches-at_most_once_example =
    deliver_batches-at_most_once 3600 (batch ∷ batch ∷ []) targets station (omega arith) refl
      batches_clock

abbrev waited : Station
waited = after_first 3600 batch targets 30 station

deliver_events-one_line_each_example :
    (lines : List Line) × Logs (pairs batch targets) station lines (
      failures_of (deliver_events 3600 batch targets station).0,
      (deliver_events 3600 batch targets station).1,
    )
deliver_events-one_line_each_example = deliver_events-one_line_each 3600 batch targets station

already_done-mark_done_example : (already_done 3600 4601 "k" (mark_done 3600 1000 "k" [])).0 ≡ false
unfolding lookup
already_done-mark_done_example = already_done-mark_done 3600 1000 4601 "k" "k" [] (omega arith) tt
