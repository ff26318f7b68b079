-- ===== src/Core/Normalize/Selection.antt =====
-- Which conditions a selector enables, and how many events a payload yields.
use hpe_com_event_integratio.Base.{
  String, false, List, [], ◌∷◌, ◌++◌, ◌||◌, Option, none, some, ◌≡◌, ◌≢◌, refl, arith, Bool-cases,
  inl, inr,
}
use hpe_com_event_integratio.Base.Text.{split, ends_with, lower}
use hpe_com_event_integratio.Python.{Json, ok, text, get_or, str}
use hpe_com_event_integratio.Core.Event.{CanonicalEvent}
use hpe_com_event_integratio.Core.Normalize.{normalize, dispatch}
use hpe_com_event_integratio.Core.Normalize.Environment.{Platform}
use hpe_com_event_integratio.Core.Normalize.Monitors.{
  Condition, health, power, connection, subscription, same, has, find_condition, clean_names,
  add_condition, add_names, or_default, enabled_monitors,
}
use hpe_com_event_integratio.Core.Normalize.Lifecycle.{
  >>=-Returns, ReportsAll, normalize_server-ReportsAll,
}

-- No condition stands twice.
abbrev pub Distinct : List Condition → Type 0
Distinct [] = Unit
Distinct (c ∷ cs) = (has cs c ≡ false) × Distinct cs

same_sym : (c d : Condition) → same c d ≡ same d c
same_sym health d = ground arith
same_sym power d = ground arith
same_sym connection d = ground arith
same_sym subscription d = ground arith

has-append : (cs : List Condition) (c d : Condition) → has (cs ++ c ∷ []) d ≡ (has cs d || same c d)
unfolding has
has-append [] c d = ground arith
has-append (b ∷ cs) c d = ground (arith, has-append cs c d)

Distinct-append :
    (cs : List Condition) (c : Condition) → Distinct cs → has cs c ≡ false → Distinct (cs ++ c ∷ [])
unfolding has
Distinct-append [] c u new = (refl, tt)
Distinct-append (b ∷ cs) c (fresh, u) new =
    ground (arith, Distinct-append cs c u, has-append cs c b, same_sym b c)

-- Distinct conditions, at least one.
abbrev pub IsSelection : List Condition → Type 0
IsSelection conds = Distinct conds × (conds ≢ [])

append_ne : (cs : List Condition) (c : Condition) → cs ++ c ∷ [] ≢ []
append_ne [] c e = cc
append_ne (b ∷ cs) c e = cc

add_condition-IsSelection :
    (found : Option Condition) (ordered more : List Condition)
    → add_condition found ordered ≡ ok more
    → Distinct ordered
    → IsSelection more
unfolding add_condition has
add_condition-IsSelection none ordered more h u = cc
add_condition-IsSelection (some c) [] more h u = ground arith
add_condition-IsSelection (some c) (b ∷ cs) more h u =
    ground (arith, Distinct-append (b ∷ cs) c u, append_ne (b ∷ cs) c)

add_names-IsSelection :
    (names : List String) (ordered conds : List Condition)
    → add_names names ordered ≡ ok conds
    → IsSelection ordered
    → IsSelection conds
unfolding add_names
add_names-IsSelection [] ordered conds h u = let same : ordered ≡ conds = cc in rw (← same) u
add_names-IsSelection (n ∷ names) ordered conds h u =
    let (more, e, h') = >>=-Returns (add_condition (find_condition n) ordered) _ h in
    add_names-IsSelection names more conds h'
      (add_condition-IsSelection (find_condition n) ordered more e u.0)

or_default-IsSelection :
    (names : List String) (conds : List Condition) → or_default names ≡ ok conds → IsSelection conds
unfolding add_names has
or_default-IsSelection [] conds h =
    let same : health ∷ [] ≡ conds = cc in rw (← same) ((refl, tt), λ e. cc)
or_default-IsSelection (n ∷ names) conds h =
    let (more, e, h') = >>=-Returns (add_condition (find_condition n) []) _ h in
    add_names-IsSelection names more conds h'
      (add_condition-IsSelection (find_condition n) [] more e tt)

-- Whatever SERVER_MONITORS says, if it is accepted, at least one condition is enabled and none is
-- enabled twice.
enabled_monitors-IsSelection :
    (raw : String) (conds : List Condition) → enabled_monitors raw ≡ ok conds → IsSelection conds
unfolding enabled_monitors
enabled_monitors-IsSelection raw conds h =
    or_default-IsSelection (clean_names (split b',' raw)) conds h

ReportsAll-ne_nil :
    (base : String) (conds : List Condition) (events : List CanonicalEvent)
    → ReportsAll base conds events
    → conds ≢ []
    → events ≢ []
ReportsAll-ne_nil base [] events h ne = absurd (ne refl)
ReportsAll-ne_nil base (c ∷ conds) [] h ne = absurd h
ReportsAll-ne_nil base (c ∷ conds) (e ∷ es) h ne = λ p. cc

dispatch-ne_nil :
    (p : Platform) (ptype : String) (payload : Json) (events : List CanonicalEvent)
    → dispatch p ptype payload ≡ ok events
    → events ≢ []
unfolding dispatch
dispatch-ne_nil p ptype payload events h = elim (Bool-cases (ends_with ptype "/server")) [
  | inl e ↦
      let (base, conds, b, m, r) = normalize_server-ReportsAll p payload events (rw e at h) in
      ReportsAll-ne_nil base conds events r (enabled_monitors-IsSelection _ conds m).1
  | inr e ↦ ground arith
]

-- A payload that normalises yields at least one event.
normalize-ne_nil :
    (p : Platform) (payload : Json) (events : List CanonicalEvent)
    → normalize p payload ≡ ok events
    → events ≢ []
unfolding normalize
normalize-ne_nil p payload events h =
    let (ptype, e, h') = >>=-Returns (get_or payload "type" (text "")) _ h in
    dispatch-ne_nil p (lower (str p.repr ptype)) payload events h'
