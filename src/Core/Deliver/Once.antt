-- ===== src/Core/Deliver/Once.antt =====
-- At-most-once delivery within the window of the de-duplication store.
use hpe_com_event_integratio.Base.{
  ℕ, ◌+◌, ◌-◌, ◌≤◌, ◌<◌, String, true, false, List, [], ◌∷◌, ◌≡◌, ap, arith, contains, eq_iff,
  Bool-cases, inl, inr,
}
use native.Mathlib.Nat.{le_refl, le_trans}
use hpe_com_event_integratio.Core.Deliver.Walk.{Pairs, walk, walk-clock, pairs, collect-walk}
use hpe_com_event_integratio.Base.Dict.{lookup, lookup-insert}
use hpe_com_event_integratio.Core.Event.{CanonicalEvent}
use hpe_com_event_integratio.Core.Dedup.{purge, already_done, mark_done}
use hpe_com_event_integratio.Core.Dedup.Window.{survives, survives-purge}
use hpe_com_event_integratio.Core.Deliver.{
  TargetAdapter, Line, delivered, Station, key_of, deliver_one, collect_failures, deliver_events,
}

abbrev pub delivered_keys : List Line → List String
delivered_keys [] = []
delivered_keys (delivered k ∷ log) = k ∷ delivered_keys log
delivered_keys (_ ∷ log) = delivered_keys log

-- No text stands twice in the list.
abbrev pub NoRepeats : List String → Type 0
NoRepeats [] = Unit
NoRepeats (k ∷ ks) = (contains ks k ≡ false) × NoRepeats ks

-- What is delivered since `start` was delivered once and is marked.
pub record IsMarked (start : ℕ) (s : Station) : Type 0 where
  pub unique : NoRepeats (delivered_keys s.log)
  pub later : start ≤ s.clock
  pub marked :
      (k : String)
      → contains (delivered_keys s.log) k ≡ true
      → survives start (lookup k s.seen) ≡ true

start-IsMarked : (s : Station) → s.log ≡ [] → IsMarked s.clock s
unfolding contains
start-IsMarked s fresh = record {
  unique = rw fresh tt;
  later = le_refl _;
  marked = λ k h. let e = ap (λ log. contains (delivered_keys log) k) fresh in cc;
}

module _ (ttl : ℕ) where
  module _ (start : ℕ) (pos : 0 < ttl) where
    done_if_delivered :
        (k : String) (s : Station)
        → s.clock ≤ start + ttl
        → IsMarked start s
        → contains (delivered_keys s.log) k ≡ true
        → (already_done ttl s.clock k s.seen).0 ≡ true
    unfolding already_done
    done_if_delivered k s soon m h =
        ground (arith, m.marked k h, survives-purge (s.clock - ttl) start k s.seen)

    pub keeps_mark :
        (event : CanonicalEvent) (a : TargetAdapter) (k : String) (s : Station)
        → s.clock ≤ start + ttl
        → start ≤ s.clock
        → survives start (lookup k s.seen) ≡ true
        → survives start (lookup k (deliver_one ttl event a s).1.seen) ≡ true
    unfolding deliver_one already_done mark_done
    keeps_mark event a k s soon later young =
        let answer = a.forward s.calls event in
        ground (
          arith,
          survives-purge (s.clock - ttl) start k s.seen,
          lookup-insert (key_of event a) k (s.clock + answer.elapsed)
              (purge (s.clock - ttl) s.seen),
        )

    delivered_mark :
        (event : CanonicalEvent) (a : TargetAdapter) (k : String) (s : Station)
        → start ≤ s.clock
        → contains (delivered_keys s.log) k ≡ false
        → contains (delivered_keys (deliver_one ttl event a s).1.log) k ≡ true
        → survives start (lookup k (deliver_one ttl event a s).1.seen) ≡ true
    unfolding deliver_one already_done mark_done contains
    delivered_mark event a k s later new h =
        let answer = a.forward s.calls event in
        ground (
          arith,
          eq_iff (key_of event a) k,
          lookup-insert (key_of event a) k (s.clock + answer.elapsed)
              (purge (s.clock - ttl) s.seen),
        )

    one-IsMarked :
        (event : CanonicalEvent) (a : TargetAdapter) (s : Station)
        → s.clock ≤ start + ttl
        → IsMarked start s
        → IsMarked start (deliver_one ttl event a s).1
    unfolding deliver_one
    one-IsMarked event a s soon m = record {
      unique = ground (arith, done_if_delivered (key_of event a) s soon m, m.unique);
      later = ground (arith, m.later);
      marked = λ k h. elim (Bool-cases (contains (delivered_keys s.log) k)) [
        | inl old ↦ keeps_mark event a k s soon m.later (m.marked k old)
        | inr new ↦ delivered_mark event a k s m.later new h
      ];
    }

    pub walk-IsMarked :
        (ps : Pairs) (s : Station)
        → (walk ttl ps s).1.clock ≤ start + ttl
        → IsMarked start s
        → IsMarked start (walk ttl ps s).1
    unfolding walk
    walk-IsMarked [] s soon m = m
    walk-IsMarked ((event, a) ∷ ps) s soon m =
        let t = (deliver_one ttl event a s).1 in
        walk-IsMarked ps t soon (
          one-IsMarked event a s
            (le_trans (walk-clock ttl ((event, a) ∷ []) s) (le_trans (walk-clock ttl ps t) soon)) m)

  -- Calls of `deliver_events` one after the other, as the consumers make them: each for one payload,
  -- a payload that failed any number of times.
  unfoldable pub deliver_batches :
      List (List CanonicalEvent) → List TargetAdapter → Station → Station
  unfolding deliver_events
  deliver_batches [] adapters s = s
  deliver_batches (events ∷ batches) adapters s =
      deliver_batches batches adapters (deliver_events ttl events adapters s).1

  batches-clock :
      (batches : List (List CanonicalEvent)) (adapters : List TargetAdapter) (s : Station)
      → s.clock ≤ (deliver_batches batches adapters s).clock
  unfolding deliver_batches
  batches-clock [] adapters s = le_refl _
  batches-clock (events ∷ batches) adapters s =
      le_trans
        (rw (← collect-walk ttl events adapters s) at (walk-clock ttl (pairs events adapters) s))
        (batches-clock batches adapters (collect_failures ttl events adapters s).1)

  batches-IsMarked :
      (start : ℕ) (batches : List (List CanonicalEvent)) (adapters : List TargetAdapter)
      (s : Station)
      → 0 < ttl
      → (deliver_batches batches adapters s).clock ≤ start + ttl
      → IsMarked start s
      → IsMarked start (deliver_batches batches adapters s)
  unfolding deliver_batches
  batches-IsMarked start [] adapters s pos soon m = m
  batches-IsMarked start (events ∷ batches) adapters s pos soon m =
      let t = (collect_failures ttl events adapters s).1 in
      batches-IsMarked start batches adapters t pos soon (
        rw (collect-walk ttl events adapters s) (
          walk-IsMarked start pos (pairs events adapters) s
            (rw (← collect-walk ttl events adapters s)
              (le_trans (batches-clock batches adapters t) soon))
            m))

  -- With a positive `ttl` and an empty log, whatever the batches, the adapters' answers and the
  -- retries, no key is delivered twice in a run that takes at most `ttl` seconds.
  pub deliver_batches-at_most_once :
      (batches : List (List CanonicalEvent)) (adapters : List TargetAdapter) (s : Station)
      → 0 < ttl
      → s.log ≡ []
      → (deliver_batches batches adapters s).clock ≤ s.clock + ttl
      → NoRepeats (delivered_keys (deliver_batches batches adapters s).log)
  deliver_batches-at_most_once batches adapters s pos fresh soon =
      (batches-IsMarked s.clock batches adapters s pos soon (start-IsMarked s fresh)).unique
