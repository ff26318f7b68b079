-- ===== src/Core/Deliver.antt =====
-- com-event-core/com_event_core/deliver.py, over the state that a delivery reads and changes.
pub mod Outcomes
pub mod Once
pub mod Walk
pub mod Retry
pub mod Healthy
use hpe_com_event_integratio.Base.{
  ℕ, ◌+◌, String, ◌<>◌, Bool, true, false, List, [], ◌∷◌, ◌++◌, Option, none, some, if◌then◌else◌,
}
use hpe_com_event_integratio.Python.{Result, ok, raised, Exc, partial_delivery}
use hpe_com_event_integratio.Core.Event.{CanonicalEvent}
use hpe_com_event_integratio.Core.Dedup.{Seen, already_done, mark_done}

-- What one call of an adapter's `forward` does: it returns or raises, and time passes.
pub record Answer : Type 0 where
  pub outcome : Result (Unit {0})
  pub elapsed : ℕ

-- A `TargetAdapter`. Its answers may depend on the event and on the number of calls made before,
-- in any way.
pub record TargetAdapter : Type 0 where
  pub name : String
  pub forward : ℕ → CanonicalEvent → Answer

-- The three log lines of `deliver`, each with the key that it is about.
pub data Line : Type 0 where
  skipped : String → Line
  failed : String → Line
  delivered : String → Line

-- The state: the clock, the number of calls of adapters so far, the `DedupStore`, and the log with
-- its last line first.
pub record Station : Type 0 where
  pub clock : ℕ
  pub calls : ℕ
  pub seen : Seen
  pub log : List Line

-- `f"{event.dedup_key}:{adapter.name}"`
abbrev pub key_of : CanonicalEvent → TargetAdapter → String
key_of event adapter = event.dedup_key <> ":" <> adapter.name

-- `if failures: raise PartialDeliveryError(failures)`
abbrev pub raise_if : List String → Result (Unit {0})
raise_if [] = ok tt
raise_if (f ∷ fs) = raised (partial_delivery (f ∷ fs))

-- `except PartialDeliveryError as e: failures.extend(e.failures)`
abbrev pub failures_of : Result (Unit {0}) → List String
failures_of (raised (partial_delivery fs)) = fs
failures_of _ = []

module _ (ttl : ℕ) where
  -- After `forward` has answered: the failure, if any, and the new state.
  abbrev settle : String → String → Result (Unit {0}) → Station → List String × Station
  settle key name (raised e) s = (name ∷ [], record s { log = failed key ∷ s.log })
  settle key name (ok _) s =
      ([], record s { seen = mark_done ttl s.clock key s.seen; log = delivered key ∷ s.log })

  -- One round of the loop over the adapters.
  unfoldable pub deliver_one : CanonicalEvent → TargetAdapter → Station → List String × Station
  deliver_one event adapter s =
      let key = key_of event adapter in
      let (done, seen) = already_done ttl s.clock key s.seen in
      let answer = adapter.forward s.calls event in
      if done
      then ([], record s { seen = seen; log = skipped key ∷ s.log })
      else settle key adapter.name answer.outcome
          (record s { seen = seen; clock = s.clock + answer.elapsed; calls = s.calls + 1 })

  unfoldable pub deliver_each :
      CanonicalEvent → List TargetAdapter → Station → List String × Station
  deliver_each event [] s = ([], s)
  deliver_each event (adapter ∷ adapters) s =
      let (failures, t) = deliver_one event adapter s in
      let (more, u) = deliver_each event adapters t in (failures ++ more, u)

  unfoldable pub deliver :
      CanonicalEvent → List TargetAdapter → Station → Result (Unit {0}) × Station
  unfolding deliver_each
  deliver event adapters s =
      let (failures, t) = deliver_each event adapters s in (raise_if failures, t)

  unfoldable pub collect_failures :
      List CanonicalEvent → List TargetAdapter → Station → List String × Station
  collect_failures [] adapters s = ([], s)
  collect_failures (event ∷ events) adapters s =
      let (result, t) = deliver event adapters s in
      let (more, u) = collect_failures events adapters t in (failures_of result ++ more, u)

  unfoldable pub deliver_events :
      List CanonicalEvent → List TargetAdapter → Station → Result (Unit {0}) × Station
  unfolding deliver collect_failures
  deliver_events events adapters s =
      let (failures, t) = collect_failures events adapters s in (raise_if failures, t)
