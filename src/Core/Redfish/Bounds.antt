-- ===== src/Core/Redfish/Bounds.antt =====
-- How much the members of a collection can add to the evidence.
use hpe_com_event_integratio.Base.{
  ℕ, zero, suc, ◌+◌, ◌≤◌, String, List, [], ◌∷◌, Option, none, some, inl, inr, arith, length,
  length-append, Bool-cases,
}
use hpe_com_event_integratio.Python.{
  Json, Result, ok, raised, Result-cases, get, str, is_truthy, elements_or_nil,
}
use hpe_com_event_integratio.Core.Com.{Step, and_then, lift, attempt, or_none}
use hpe_com_event_integratio.Core.Redfish.{Ilo, Evidence, exchange, fetch, resource_of, Answer}
use hpe_com_event_integratio.Core.Redfish.Sensors.{health_of, is_healthy}
use hpe_com_event_integratio.Core.Redfish.Members.{
  Summary, Progress, first_members, counted, inspect, visit_path, visit, visit_all, refs_in, expand,
  expand_if, summary_of, collect_unhealthy_members,
}

module _ (i : Ilo) where
  -- At most `n` requests more than before, at most `n` members inspected more, and of those that were
  -- inspected more at most all unhealthy.
  abbrev Counts : Progress → Progress → ℕ → Type 0
  Counts p q n =
      (q.inspected ≤ p.inspected + n)
      × (length q.unhealthy + p.inspected ≤ length p.unhealthy + q.inspected)

  abbrev IsVisited : Progress → ℕ → ℕ → Result Progress × Evidence → Type 0
  IsVisited p gets n (ok q, s) = (length s.gets ≤ gets + n) × Counts p q n
  IsVisited p gets n (raised e, s) = length s.gets ≤ gets + n

  counted-Counts :
      (member : Json) (p : Progress) (health : String) → Counts p (counted i member p health) 1
  counted-Counts member p health = elim (Bool-cases (is_healthy health)) [
    | inl e ↦ rw e (omega arith, omega arith)
    | inr e ↦ rw e (omega arith, omega (arith, length-append p.unhealthy (member ∷ [])))
  ]

  inspect-IsVisited :
      (p : Progress) (gets : ℕ) (got : Option (Option Json)) (s : Evidence)
      → length s.gets ≤ gets + 1
      → IsVisited p gets 1 (inspect i p got, s)
  inspect-IsVisited p gets none s h = (h, (omega arith, omega arith))
  inspect-IsVisited p gets (some none) s h = (h, (omega arith, omega arith))
  inspect-IsVisited p gets (some (some member)) s h = elim (Bool-cases (is_truthy member)) [
    | inr e ↦ rw e (h, (omega arith, omega arith))
    | inl e ↦ rw e (elim (Result-cases (health_of i.numbers member)) [
      | inl (health, k) ↦ rw k (h, counted-Counts member p health)
      | inr (x, k) ↦ rw k h
    ])
  ]

  fetched-gets :
      (gets : ℕ) (r : Result Answer) (s : Evidence)
      → length s.gets ≤ gets + 1
      → length (or_none (and_then (λ a. lift (resource_of a)) (r, s))).1.gets ≤ gets + 1
  fetched-gets gets (raised e) s h = h
  fetched-gets gets (ok a) s h = elim (Result-cases (resource_of a)) [
    | inl (got, k) ↦ rw k h
    | inr (x, k) ↦ rw k h
  ]

  attempt-fetch-gets :
      (path : String) (s : Evidence) → length (attempt (fetch i path) s).1.gets ≤ length s.gets + 1
  unfolding fetch exchange
  attempt-fetch-gets path s =
      fetched-gets (length s.gets) (i.answer s.gets path) (record s { gets = path ∷ s.gets })
        (omega arith)

  after_attempt-IsVisited :
      (p : Progress) (gets : ℕ) (r : Result (Option (Option Json)) × Evidence)
      → length r.1.gets ≤ gets + 1
      → IsVisited p gets 1 (and_then (λ got. lift (inspect i p got)) r)
  after_attempt-IsVisited p gets (ok got, s) h = inspect-IsVisited p gets got s h
  after_attempt-IsVisited p gets (raised e, s) h = h

  visit_path-IsVisited :
      (p : Progress) (path : Json) (s : Evidence)
      → IsVisited p (length s.gets) 1 (visit_path i p path s)
  visit_path-IsVisited p path s = elim (Bool-cases (is_truthy path)) [
    | inr e ↦ rw e (omega arith, (omega arith, omega arith))
    | inl e ↦ rw e (
        after_attempt-IsVisited p (length s.gets) (attempt (fetch i (str i.numbers.repr path)) s)
          (attempt-fetch-gets (str i.numbers.repr path) s))
  ]

  visit-IsVisited :
      (p : Progress) (ref : Json) (s : Evidence) → IsVisited p (length s.gets) 1 (visit i p ref s)
  unfolding visit
  visit-IsVisited p ref s = elim (Result-cases (get ref "@odata.id")) [
    | inl (path, k) ↦ rw k (visit_path-IsVisited p path s)
    | inr (x, k) ↦ rw k (omega arith)
  ]

  widen :
      (p q : Progress) (gets n : ℕ) (s : Evidence) (r : Result Progress × Evidence)
      → length s.gets ≤ gets + 1
      → q.inspected ≤ p.inspected + 1
      → length q.unhealthy + p.inspected ≤ length p.unhealthy + q.inspected
      → IsVisited q (length s.gets) n r
      → IsVisited p gets (suc n) r
  widen p q gets n s (raised e, s1) h k l v = omega (arith, h, v)
  widen p q gets n s (ok q1, s1) h k l (g, (k1, l1)) =
      (omega (arith, h, g), (omega (arith, k, k1), omega (arith, l, l1)))

  next-IsVisited :
      (p : Progress) (gets n : ℕ) (f : Progress → Step Evidence Progress)
      → ((q : Progress) (s : Evidence) → IsVisited q (length s.gets) n (f q s))
      → (r : Result Progress × Evidence) → IsVisited p gets 1 r
      → IsVisited p gets (suc n) (and_then f r)
  next-IsVisited p gets n f hf (raised e, s) h = omega (arith, h)
  next-IsVisited p gets n f hf (ok q, s) (h, (k, l)) = widen p q gets n s (f q s) h k l (hf q s)

  visit_all-IsVisited :
      (refs : List Json) (p : Progress) (s : Evidence)
      → IsVisited p (length s.gets) (length refs) (visit_all i refs p s)
  unfolding visit_all
  visit_all-IsVisited [] p s = (omega arith, (omega arith, omega arith))
  visit_all-IsVisited (ref ∷ refs) p s =
      next-IsVisited p (length s.gets) (length refs) (visit_all i refs) (visit_all-IsVisited refs)
        (visit i p ref s) (visit-IsVisited p ref s)

  length-first_members :
      (n : ℕ) (js : List Json)
      → (length (first_members n js) ≤ n) × (length (first_members n js) ≤ length js)
  unfolding first_members
  length-first_members zero js = (omega arith, omega arith)
  length-first_members (suc n) [] = (omega arith, omega arith)
  length-first_members (suc n) (j ∷ js) =
      let (a, b) = length-first_members n js in (omega (arith, a), omega (arith, b))

  -- At most `gets` requests; and in a summary, at most `limit` members and at most all that there are
  -- were inspected, and at most the inspected ones are listed.
  abbrev pub IsBounded : ℕ → ℕ → Result (Option Summary) × Evidence → Type 0
  IsBounded limit gets (ok (some m), s) =
      (length s.gets ≤ gets)
      × ((length m.unhealthy ≤ m.inspected)
          × ((m.inspected ≤ limit) × (m.inspected ≤ m.total_members)))
  IsBounded limit gets (_, s) = length s.gets ≤ gets

  summary-IsBounded :
      (path : String) (limit gets : ℕ) (members : List Json) (r : Result Progress × Evidence)
      → IsVisited
          (record { inspected = 0; unhealthy = [] })
          gets
          (length (first_members limit members))
          r
      → IsBounded limit
          (gets + limit)
          (and_then (λ p. lift (ok (summary_of i path (length members) p))) r)
  summary-IsBounded path limit gets members (raised e, s) h =
      omega (arith, h, (length-first_members limit members).0)
  summary-IsBounded path limit gets members (ok p, s) (h, (k, l)) =
      let (a, b) = length-first_members limit members in
      (omega (arith, h, a), (omega (arith, l), (omega (arith, k, a), omega (arith, k, b))))

  expand-IsBounded :
      (path : String) (limit : ℕ) (collection : Json) (s : Evidence)
      → IsBounded limit (length s.gets + limit) (expand i path limit collection s)
  expand-IsBounded path limit collection s = elim (Result-cases (refs_in i collection)) [
    | inr (x, k) ↦ rw k (omega arith)
    | inl (j, k) ↦ rw k (elim (Result-cases (elements_or_nil j)) [
      | inr (x, k1) ↦ rw k1 (omega arith)
      | inl (members, k1) ↦ rw k1 (
          summary-IsBounded path limit (length s.gets) members
            (visit_all i (first_members limit members) (record { inspected = 0; unhealthy = [] }) s)
            (visit_all-IsVisited (first_members limit members)
              (record { inspected = 0; unhealthy = [] }) s))
    ])
  ]

  IsBounded-more :
      (limit a b : ℕ) (r : Result (Option Summary) × Evidence)
      → a ≤ b
      → IsBounded limit a r
      → IsBounded limit b r
  IsBounded-more limit a b (raised e, s) le h = omega (arith, le, h)
  IsBounded-more limit a b (ok none, s) le h = omega (arith, le, h)
  IsBounded-more limit a b (ok (some m), s) le (h, rest) = (omega (arith, le, h), rest)

  expand_if-IsBounded :
      (path : String) (limit gets : ℕ) (o : Option Json) (s : Evidence)
      → length s.gets ≤ gets
      → IsBounded limit (gets + limit) (expand_if i path limit o s)
  expand_if-IsBounded path limit gets none s h = omega (arith, h)
  expand_if-IsBounded path limit gets (some collection) s h =
      elim (Bool-cases (is_truthy collection)) [
        | inl k ↦ rw k (
            IsBounded-more limit (length s.gets + limit) (gets + limit)
              (expand i path limit collection s) (omega (arith, h))
              (expand-IsBounded path limit collection s))
        | inr k ↦ rw k (omega (arith, h))
      ]

  after_fetch-IsBounded :
      (path : String) (limit gets : ℕ) (r : Result Answer) (s : Evidence)
      → length s.gets ≤ gets
      → IsBounded limit
          (gets + limit)
          (and_then (expand_if i path limit) (and_then (λ a. lift (resource_of a)) (r, s)))
  after_fetch-IsBounded path limit gets (raised e) s h = omega (arith, h)
  after_fetch-IsBounded path limit gets (ok a) s h = elim (Result-cases (resource_of a)) [
    | inl (got, k) ↦ rw k (expand_if-IsBounded path limit gets got s h)
    | inr (x, k) ↦ rw k (omega (arith, h))
  ]

  -- A collection costs at most `limit` requests beside its own, whatever the iLO answers; its summary
  -- covers at most `limit` members and at most those that exist, and lists at most the inspected ones.
  pub collect_unhealthy_members-IsBounded :
      (path : String) (limit : ℕ) (s : Evidence)
      → IsBounded limit (length s.gets + 1 + limit) (collect_unhealthy_members i path limit s)
  unfolding collect_unhealthy_members fetch exchange
  collect_unhealthy_members-IsBounded path limit s =
      after_fetch-IsBounded path limit (length s.gets + 1) (i.answer s.gets path)
        (record s { gets = path ∷ s.gets }) (omega arith)
