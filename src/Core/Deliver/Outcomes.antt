-- ===== src/Core/Deliver/Outcomes.antt =====
-- What a delivery reports, against the log that it leaves.
use hpe_com_event_integratio.Base.{
  ℕ, ◌+◌, String, ◌<>◌, List, [], ◌∷◌, ◌++◌, ◌≡◌, refl, ap, ◌∙◌, arith, inl, inr, Bool-cases,
}
use mathlib.Core.List.{append-nil}
use hpe_com_event_integratio.Python.{Result-cases}
use hpe_com_event_integratio.Core.Event.{CanonicalEvent}
use hpe_com_event_integratio.Core.Dedup.{already_done}
use hpe_com_event_integratio.Core.Deliver.{
  TargetAdapter, Line, skipped, failed, delivered, Station, key_of, deliver_one, failures_of,
  deliver_events,
}
use hpe_com_event_integratio.Core.Deliver.Walk.{
  Pairs, walk, pairs, collect-walk, failures_of-raise_if,
}

-- The lines onto the log, the last one first.
abbrev pub push_lines : List Line → List Line → List Line
push_lines [] log = log
push_lines (l ∷ ls) log = push_lines ls (l ∷ log)

-- Whether the adapter was called.
abbrev pub called : Line → ℕ
called (skipped k) = 0
called (failed k) = 1
called (delivered k) = 1

abbrev pub count_called : List Line → ℕ
count_called [] = 0
count_called (l ∷ ls) = called l + count_called ls

abbrev pub line_key : Line → String
line_key (skipped k) = k
line_key (failed k) = k
line_key (delivered k) = k

-- One line for each pair, in their order, about the key of the event at that adapter.
abbrev pub AreFor : Pairs → List Line → Type 0
AreFor [] [] = Unit
AreFor ((event, a) ∷ ps) (l ∷ ls) = (line_key l ≡ event.dedup_key <> ":" <> a.name) × AreFor ps ls
AreFor _ _ = ⊥

-- The names of the adapters whose lines say FAILED.
abbrev pub failed_name : TargetAdapter → Line → List String
failed_name a (failed k) = a.name ∷ []
failed_name a _ = []

abbrev pub failed_names : Pairs → List Line → List String
failed_names ((event, a) ∷ ps) (l ∷ ls) = failed_name a l ++ failed_names ps ls
failed_names _ _ = []

-- The new lines, what they say of the calls and the failures, and what was there.
abbrev pub Logs : Pairs → Station → List Line → List String × Station → Type 0
Logs ps s lines out =
    AreFor ps lines
    × (out.1.log ≡ push_lines lines s.log)
    × (out.1.calls ≡ s.calls + count_called lines)
    × (out.0 ≡ failed_names ps lines)

-- The lines of a first step and those of the steps after it.
pub join-Logs :
    (event : CanonicalEvent) (a : TargetAdapter) (ps : Pairs) (s : Station) (l : Line)
    (ls : List Line) (first rest : List String × Station)
    → Logs ((event, a) ∷ []) s (l ∷ []) first
    → Logs ps first.1 ls rest
    → Logs ((event, a) ∷ ps) s (l ∷ ls) (first.0 ++ rest.0, rest.1)
join-Logs event a ps s l ls first rest ((key, _), log, calls, names) (keys, logs, more, others) = (
  (key, keys),
  logs ∙ ap (push_lines ls) log,
  omega (arith, more, calls),
  rw (names, others, append-nil (failed_name a l)) refl,
)

module _ (ttl : ℕ) where
  pub one-Logs :
      (event : CanonicalEvent) (a : TargetAdapter) (s : Station)
      → (l : Line) × Logs ((event, a) ∷ []) s (l ∷ []) (deliver_one ttl event a s)
  unfolding deliver_one
  one-Logs event a s = elim (Bool-cases (already_done ttl s.clock (key_of event a) s.seen).0) [
    | inl e ↦ rw e (skipped (key_of event a), ((refl, tt), refl, omega arith, refl))
    | inr e ↦ elim (Result-cases (a.forward s.calls event).outcome) [
      | inl (x, f) ↦ rw (e, f) (delivered (key_of event a), ((refl, tt), refl, omega arith, refl))
      | inr (x, f) ↦ rw (e, f) (failed (key_of event a), ((refl, tt), refl, omega arith, refl))
    ]
  ]

  walk-Logs : (ps : Pairs) (s : Station) → (lines : List Line) × Logs ps s lines (walk ttl ps s)
  unfolding walk
  walk-Logs [] s = ([], (tt, refl, omega arith, refl))
  walk-Logs ((event, a) ∷ ps) s =
      let (l, first) = one-Logs event a s in
      let (ls, others) = walk-Logs ps (deliver_one ttl event a s).1 in
      (
        l ∷ ls,
        join-Logs event a ps s l ls (deliver_one ttl event a s)
            (walk ttl ps (deliver_one ttl event a s).1) first others,
      )

  -- A batch leaves exactly one log line for each event and each adapter, in the order of the loops,
  -- whatever fails on the way; an adapter is called for each line that does not say skipped; and the
  -- exception names the adapters whose lines say FAILED, in their order (none, if the call returns).
  pub deliver_events-one_line_each :
      (events : List CanonicalEvent) (adapters : List TargetAdapter) (s : Station)
      → let (result, t) = deliver_events ttl events adapters s in
        (lines : List Line) × Logs (pairs events adapters) s lines (failures_of result, t)
  unfolding deliver_events
  deliver_events-one_line_each events adapters s =
      rw (failures_of-raise_if, collect-walk ttl events adapters s)
        (walk-Logs (pairs events adapters) s)
