-- ===== src/Core/Deliver/Walk.antt =====
-- The two nested loops of `deliver_events` as one walk over pairs of an event and an adapter.
use hpe_com_event_integratio.Base.{ℕ, ◌≤◌, String, List, [], ◌∷◌, ◌++◌, ◌≡◌, refl, arith}
use mathlib.Core.List.{append_assoc}
use native.Mathlib.Nat.{le_refl, le_trans}
use hpe_com_event_integratio.Core.Event.{CanonicalEvent}
use hpe_com_event_integratio.Core.Deliver.{
  TargetAdapter, Station, deliver_one, deliver_each, raise_if, failures_of, deliver,
  collect_failures,
}

abbrev pub Pairs : Type 0
Pairs = List (CanonicalEvent × TargetAdapter)

abbrev pub pairs_with : CanonicalEvent → List TargetAdapter → Pairs
pairs_with event [] = []
pairs_with event (a ∷ adapters) = (event, a) ∷ pairs_with event adapters

abbrev pub pairs : List CanonicalEvent → List TargetAdapter → Pairs
pairs [] adapters = []
pairs (event ∷ events) adapters = pairs_with event adapters ++ pairs events adapters

pub failures_of-raise_if : (fs : List String) → failures_of (raise_if fs) ≡ fs
failures_of-raise_if [] = refl
failures_of-raise_if (f ∷ fs) = refl

module _ (ttl : ℕ) where
  unfoldable pub walk : Pairs → Station → List String × Station
  walk [] s = ([], s)
  walk ((event, a) ∷ ps) s =
      let (failures, t) = deliver_one ttl event a s in
      let (more, u) = walk ps t in (failures ++ more, u)

  one-clock :
      (event : CanonicalEvent) (a : TargetAdapter) (s : Station)
      → s.clock ≤ (deliver_one ttl event a s).1.clock
  unfolding deliver_one
  one-clock event a s = ground arith

  -- Time does not run backwards.
  pub walk-clock : (ps : Pairs) (s : Station) → s.clock ≤ (walk ps s).1.clock
  unfolding walk
  walk-clock [] s = le_refl _
  walk-clock ((event, a) ∷ ps) s =
      le_trans (one-clock event a s) (walk-clock ps (deliver_one ttl event a s).1)

  walk-append :
      (ps qs : Pairs) (s : Station)
      → walk (ps ++ qs) s ≡ ((walk ps s).0 ++ (walk qs (walk ps s).1).0, (walk qs (walk ps s).1).1)
  unfolding walk
  walk-append [] qs s = refl
  walk-append ((event, a) ∷ ps) qs s =
      rw (walk-append ps qs (deliver_one ttl event a s).1, append_assoc)

  each-walk :
      (event : CanonicalEvent) (adapters : List TargetAdapter) (s : Station)
      → deliver_each ttl event adapters s ≡ walk (pairs_with event adapters) s
  unfolding walk deliver_each
  each-walk event [] s = refl
  each-walk event (a ∷ adapters) s = rw (each-walk event adapters (deliver_one ttl event a s).1)

  pub collect-walk :
      (events : List CanonicalEvent) (adapters : List TargetAdapter) (s : Station)
      → collect_failures ttl events adapters s ≡ walk (pairs events adapters) s
  unfolding collect_failures deliver walk
  collect-walk [] adapters s = refl
  collect-walk (event ∷ events) adapters s =
      rw (failures_of-raise_if, each-walk event adapters s, walk-append, collect-walk events)
