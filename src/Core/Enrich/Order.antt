-- ===== src/Core/Enrich/Order.antt =====
-- The run order of the enrichers.
use hpe_com_event_integratio.Base.{
  ◌≤◌, List, [], ◌∷◌, ◌++◌, ◌≡◌, ◌≢◌, ap, arith, leb, Bool-cases, inl, inr,
}
use mathlib.Core.List.{Perm}
use mathlib.Core.List.Perm
use hpe_com_event_integratio.Core.Enrich.{Enricher, insert_by_priority, sort_by_priority}

-- Priorities do not fall from one element to the next.
abbrev pub Sorted : List Enricher → Type 0
Sorted [] = Unit
Sorted (e ∷ []) = Unit
Sorted (e ∷ d ∷ es) = (e.priority ≤ d.priority) × Sorted (d ∷ es)

insert-Sorted : (e : Enricher) (es : List Enricher) → Sorted es → Sorted (insert_by_priority e es)
unfolding insert_by_priority
insert-Sorted e [] h = tt
insert-Sorted e (d ∷ []) h = ground arith
insert-Sorted e (d ∷ c ∷ es) h = ground (arith, insert-Sorted e (c ∷ es) h.1)

sort-Sorted : (es : List Enricher) → Sorted (sort_by_priority es)
unfolding sort_by_priority
sort-Sorted [] = tt
sort-Sorted (e ∷ es) = insert-Sorted e (sort_by_priority es) (sort-Sorted es)

insert-perm : (e : Enricher) (es : List Enricher) → Perm (insert_by_priority e es) (e ∷ es)
unfolding insert_by_priority
insert-perm e [] = Perm.refl _
insert-perm e (d ∷ ds) = elim (Bool-cases (leb e.priority d.priority)) [
  | inl le ↦ rw le (Perm.refl _)
  | inr gt ↦ rw gt (Perm.trans (Perm.cons d (insert-perm e ds)) (Perm.swap _ _ _))
]

sort-perm : (es : List Enricher) → Perm (sort_by_priority es) es
unfolding sort_by_priority
sort-perm [] = Perm.refl _
sort-perm (e ∷ es) = Perm.trans (insert-perm e (sort_by_priority es)) (Perm.cons e (sort-perm es))

insert-insert :
    (e d : Enricher) (es : List Enricher)
    → e.priority ≢ d.priority
    → insert_by_priority e (insert_by_priority d es)
      ≡ insert_by_priority d (insert_by_priority e es)
unfolding insert_by_priority
insert-insert e d [] h = ground arith
insert-insert e d (c ∷ es) h = ground (arith, insert-insert e d es h)

sort-swapped :
    (before : List Enricher) (e d : Enricher) (after : List Enricher)
    → e.priority ≢ d.priority
    → sort_by_priority (before ++ e ∷ d ∷ after) ≡ sort_by_priority (before ++ d ∷ e ∷ after)
unfolding sort_by_priority
sort-swapped [] e d after h = insert-insert e d (sort_by_priority after) h
sort-swapped (c ∷ before) e d after h = ap (insert_by_priority c) (sort-swapped before e d after h)

-- The run order is by priority, and holds each enricher as often as the list did. Two neighbours of
-- different priority may stand in either order in the list: the run order is the same.
sort_by_priority-order :
    (before : List Enricher) (e d : Enricher) (after : List Enricher)
    → e.priority ≢ d.priority
    → Sorted (sort_by_priority (before ++ e ∷ d ∷ after))
      × Perm (sort_by_priority (before ++ e ∷ d ∷ after)) (before ++ e ∷ d ∷ after)
      × (sort_by_priority (before ++ e ∷ d ∷ after) ≡ sort_by_priority (before ++ d ∷ e ∷ after))
sort_by_priority-order before e d after h =
    (sort-Sorted _, sort-perm _, sort-swapped before e d after h)
