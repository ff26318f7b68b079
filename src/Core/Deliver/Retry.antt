-- ===== src/Core/Deliver/Retry.antt =====
-- What a retry calls again.
use hpe_com_event_integratio.Base.{ℕ, ◌+◌, String, true, List, [], ◌∷◌, ◌≡◌, ◌≢◌, All, none}
use hpe_com_event_integratio.Base.Dict.{lookup}
use hpe_com_event_integratio.Python.{Result}
use hpe_com_event_integratio.Core.Event.{CanonicalEvent}
use hpe_com_event_integratio.Core.Dedup.{Seen}
use hpe_com_event_integratio.Core.Dedup.Window.{survives}
use hpe_com_event_integratio.Core.Deliver.{
  TargetAdapter, Line, skipped, failed, delivered, Station, key_of, deliver_events, failures_of,
}
use hpe_com_event_integratio.Core.Deliver.Walk.{Pairs}
use hpe_com_event_integratio.Core.Deliver.Outcomes.{called}

-- No event of the batch has its key twice at one adapter.
abbrev pub AreDistinct : Pairs → Type 0
AreDistinct [] = Unit
AreDistinct ((event, a) ∷ ps) =
    All (λ (p : CanonicalEvent × TargetAdapter). key_of p.0 p.1 ≢ key_of event a) ps
    × AreDistinct ps

-- What the store says of a pair after its line.
abbrev MarkFor : ℕ → String → Line → Seen → Type 0
MarkFor start k (delivered _) seen = survives start (lookup k seen) ≡ true
MarkFor start k (failed _) seen = lookup k seen ≡ none
MarkFor start k (skipped _) seen = Unit

abbrev MarksFor : ℕ → Pairs → List Line → Seen → Type 0
MarksFor start ((event, a) ∷ ps) (l ∷ ls) seen =
    MarkFor start (key_of event a) l seen × MarksFor start ps ls seen
MarksFor start _ _ seen = Unit

-- A line of the retry, beside the line of the first call: what was delivered is skipped, so that its
-- adapter is not called, and what failed is not skipped, so that its adapter is called again.
abbrev IsRetry : Line → Line → Type 0
IsRetry (delivered k) m = m ≡ skipped k
IsRetry (failed k) m = called m ≡ 1
IsRetry (skipped k) m = Unit

abbrev pub AreRetries : List Line → List Line → Type 0
AreRetries [] [] = Unit
AreRetries (l ∷ ls) (m ∷ ms) = IsRetry l m × AreRetries ls ms
AreRetries _ _ = ⊥

-- The state in which the second call starts, `wait` seconds after the first one ended.
abbrev pub after_first : ℕ → List CanonicalEvent → List TargetAdapter → ℕ → Station → Station
after_first ttl events adapters wait s =
    let t = (deliver_events ttl events adapters s).1 in record t { clock = t.clock + wait }

-- What a call leaves, with the failures that it reports.
abbrev pub reported : Result (Unit {0}) × Station → List String × Station
reported (result, t) = (failures_of result, t)
