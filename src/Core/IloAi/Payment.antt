-- ===== src/Core/IloAi/Payment.antt =====
-- How often the analyzer is asked.
use hpe_com_event_integratio.Base.{
  ℕ, suc, ◌+◌, ◌*◌, ◌≤◌, ◌<◌, String, Bool, true, false, List, [], ◌∷◌, Option, none, some, ◌≡◌,
  ◌⊎◌, inl, inr, refl, arith, All, length, truthy, Bool-cases,
}
use hpe_com_event_integratio.Python.{Json, get}
use hpe_com_event_integratio.Core.Event.{CanonicalEvent}
use hpe_com_event_integratio.Core.Com.{Step, ◌>>=◌, Response}
use hpe_com_event_integratio.Core.Com.Steps.{Keeps, >>=-Keeps, lift->>=-Keeps, and_then-leads}
use hpe_com_event_integratio.Core.Advisories.{cache_get}
use hpe_com_event_integratio.Core.IloAi.Budget.{Budget, take, granted, counted}
use hpe_com_event_integratio.Core.IloAi.Budget.Windows.{granted-hour}
use hpe_com_event_integratio.Core.IloAi.Assignments.{apply-Keeps}
use hpe_com_event_integratio.Core.IloAi.Setup.{Setup, State}
use hpe_com_event_integratio.Core.IloAi.Analyze.{
  request_body, post, document_of, read_answer, analyze, apply, cached_analysis, put_analysis,
  take_unit, gather, run_analysis, if_granted, or_analyze, enrich,
}

module _ (c : Setup) where
  -- At most `n` requests were posted, the budget is `b`, and it is `since` or later.
  abbrev IsAt : ℕ → Budget → ℕ → State → Type 0
  IsAt n b since s = (length s.posts ≤ n) × ((s.budget ≡ b) × (since ≤ s.session.clock))

  module _ (n : ℕ) (b : Budget) (since : ℕ) where
    put_analysis-IsAt : (key : String) (j : Json) → Keeps (IsAt n b since) (put_analysis c key j)
    unfolding put_analysis
    put_analysis-IsAt key j s h = h

    apply-IsAt : (result : Json) → Keeps (IsAt n b since) (apply c result)
    apply-IsAt = apply-Keeps c (IsAt n b since) (λ s f h. h)

    gather-IsAt : (url : Option String) → Keeps (IsAt n b since) (gather c url)
    unfolding gather
    gather-IsAt none s h = h
    gather-IsAt (some url) s (posts, (same, late)) = elim (Bool-cases (truthy url)) [
      | inl e ↦ rw e (posts, (same, omega (arith, late)))
      | inr e ↦ rw e (posts, (same, late))
    ]

    weaken-IsAt : (s : State) → IsAt n b since s → IsAt (suc n) b since s
    weaken-IsAt s (posts, rest) = (omega (arith, posts), rest)

    read_answer-IsAt : (r : Response) → Keeps (IsAt n b since) (read_answer c r)
    read_answer-IsAt r =
        lift->>=-Keeps (IsAt n b since) (document_of c r) _
          (λ body. lift->>=-Keeps (IsAt n b since) (get body "result") _ (λ result s h. h))

  -- A posted request is one more.
  analyze-IsAt :
      (n : ℕ) (b : Budget) (since : ℕ) (event : CanonicalEvent) (evidence : Json) (s : State)
      → IsAt n b since s
      → IsAt (suc n) b since (analyze c event evidence s).1
  unfolding analyze post
  analyze-IsAt n b since event evidence s (posts, rest) =
      let J = IsAt (suc n) b since in
      and_then-leads J J (λ s1 h. h) (read_answer c) (read_answer-IsAt (suc n) b since)
        (post c (request_body c event evidence) s) (omega (arith, posts), rest)

  finish : CanonicalEvent → Json → Step State (Unit {0})
  finish event result = put_analysis c event.correlation_key result >>= λ _. apply c result

  finish-IsAt :
      (n : ℕ) (b : Budget) (since : ℕ) (event : CanonicalEvent) (result : Json)
      → Keeps (IsAt n b since) (finish event result)
  unfolding finish
  finish-IsAt n b since event result =
      >>=-Keeps (IsAt n b since) (put_analysis c event.correlation_key result) (λ _. apply c result)
        (put_analysis-IsAt n b since event.correlation_key result)
        (λ _. apply-IsAt n b since result)

  module _ (n : ℕ) (b : Budget) (since : ℕ) (event : CanonicalEvent) where
    analyzed-IsAt :
        (evidence : Json) (s : State)
        → IsAt n b since s
        → IsAt (suc n) b since ((analyze c event evidence >>= finish event) s).1
    analyzed-IsAt evidence s h =
        let J = IsAt (suc n) b since in
        and_then-leads J J (λ s1 k. k) (finish event) (finish-IsAt (suc n) b since event)
          (analyze c event evidence s) (analyze-IsAt n b since event evidence s h)

    run_analysis-IsAt :
        (s : State) → IsAt n b since s → IsAt (suc n) b since (run_analysis c event s).1
    unfolding finish
    run_analysis-IsAt s h =
        and_then-leads (IsAt n b since) (IsAt (suc n) b since) (weaken-IsAt n b since)
          (λ evidence. analyze c event evidence >>= finish event) analyzed-IsAt
          (gather c event.mgmt_url s) (gather-IsAt n b since event.mgmt_url s h)

  -- What one event costs: nothing, or what the budget says of one request at its time.
  abbrev Costs : State → State → Type 0
  Costs s s' =
      (s.session.clock ≤ s'.session.clock)
      × (((length s'.posts ≤ length s.posts) × (s'.budget ≡ s.budget))
          ⊎ ((length s'.posts
                ≤ length s.posts
                  + counted c.per_hour c.per_day
                      (take c.per_hour c.per_day s.session.clock s.budget).0)
              × (s'.budget ≡ (take c.per_hour c.per_day s.session.clock s.budget).1)))

  if_granted-Costs :
      (event : CanonicalEvent) (granted : Bool) (s : State) (cache : List (String × (ℕ × Json)))
      → (take c.per_hour c.per_day s.session.clock s.budget).0 ≡ granted
      → Costs s
          (if_granted c event granted (record s {
            cache = cache;
            budget = (take c.per_hour c.per_day s.session.clock s.budget).1;
          })).1
  if_granted-Costs event true s cache g =
      let b1 : Budget = (take c.per_hour c.per_day s.session.clock s.budget).1 in
      let (a, (b, l)) =
        run_analysis-IsAt (length s.posts) b1 s.session.clock event
          (record s { cache = cache; budget = b1 }) (omega arith, (refl, omega arith)) in
      (l, inr (rw g (omega (arith, a)), b))
  if_granted-Costs event false s cache g = (omega arith, inr (omega arith, refl))

  after_cache-Costs :
      (event : CanonicalEvent) (found : Option Json) (s : State)
      (cache : List (String × (ℕ × Json)))
      → Costs s (or_analyze c event found (record s { cache = cache })).1
  unfolding take_unit
  after_cache-Costs event (some result) s cache =
      let (a, (b, l)) =
        apply-IsAt (length s.posts) s.budget s.session.clock result (record s { cache = cache })
          (omega arith, (refl, omega arith)) in
      (l, inl (a, b))
  after_cache-Costs event none s cache = if_granted-Costs event _ s cache refl

  enrich-Costs : (s : State) → Costs s (enrich c s).1
  unfolding enrich cached_analysis
  enrich-Costs s =
      let (found, cache) = cache_get c.ttl s.session.clock s.event.correlation_key s.cache in
      after_cache-Costs s.event found s cache

  -- One event after the other, each with the time that passes before it; what an enrichment raises is
  -- swallowed by the runner.
  abbrev pub enrich_each : List (ℕ × CanonicalEvent) → State → State
  enrich_each [] s = s
  enrich_each ((wait, event) ∷ rest) s =
      enrich_each rest
        (enrich c (record s {
          event = event;
          session = record s.session { clock = s.session.clock + wait };
        })).1

  -- The times at which the budget was asked, and what it granted.
  IsPaid : State → State → Type 0
  IsPaid s s' =
      (times : List ℕ) × (All (λ now. (s.session.clock ≤ now) × (now ≤ s'.session.clock)) times)
      × ((length s'.posts ≤ length s.posts + granted c.per_hour c.per_day times s.budget)
          × (s.session.clock ≤ s'.session.clock))

  earlier :
      (a b d : ℕ) (times : List ℕ)
      → a ≤ b
      → All (λ now. (b ≤ now) × (now ≤ d)) times
      → All (λ now. (a ≤ now) × (now ≤ d)) times
  earlier a b d [] le h = tt
  earlier a b d (now ∷ times) le ((x, y), h) = ((omega (arith, le, x), y), earlier a b d times le h)

  IsPaid-first : (s s1 s' : State) → Costs s s1 → IsPaid s1 s' → IsPaid s s'
  unfolding IsPaid granted
  IsPaid-first s s1 s' (later, inl (posts, budget)) (times, within, (cost, order)) = (
    times,
    earlier s.session.clock s1.session.clock s'.session.clock times later within,
    (rw (← budget) (omega (arith, posts, cost)), omega (arith, later, order)),
  )
  IsPaid-first s s1 s' (later, inr (posts, budget)) (times, within, (cost, order)) = (
    s.session.clock ∷ times,
    (
      (omega arith, omega (arith, later, order)),
      earlier s.session.clock s1.session.clock s'.session.clock times later within,
    ),
    (rw (← budget) (omega (arith, posts, cost)), omega (arith, later, order)),
  )

  enrich_each-IsPaid :
      (events : List (ℕ × CanonicalEvent)) (s : State) → IsPaid s (enrich_each events s)
  unfolding IsPaid granted
  enrich_each-IsPaid [] s = ([], tt, (omega arith, omega arith))
  enrich_each-IsPaid ((wait, event) ∷ rest) s =
      let s0 : State = record s {
        event = event;
        session = record s.session { clock = s.session.clock + wait };
      } in
      let s1 : State = (enrich c s0).1 in
      let (times, within, (cost, order)) =
        IsPaid-first s0 s1 (enrich_each rest s1) (enrich-Costs s0) (enrich_each-IsPaid rest s1) in
      (
        times,
        earlier s.session.clock s0.session.clock (enrich_each rest s1).session.clock times
            (omega arith) within,
        (cost, omega (arith, order)),
      )

  in_hour :
      (a d since : ℕ) (times : List ℕ)
      → since ≤ a
      → d < since + 3600
      → All (λ now. (a ≤ now) × (now ≤ d)) times
      → All (λ now. (since ≤ now) × (now < since + 3600)) times
  in_hour a d since [] le lt h = tt
  in_hour a d since (now ∷ times) le lt ((x, y), h) =
      ((omega (arith, le, x), omega (arith, lt, y)), in_hour a d since times le lt h)

  -- However many events are enriched within an hour, and whatever fails, the analyzer is asked at most
  -- twice as often as the hourly cap says: the budget is asked before every request.
  pub enrich_each-posts :
      (since : ℕ) (events : List (ℕ × CanonicalEvent)) (s : State)
      → since ≤ s.session.clock
      → (enrich_each events s).session.clock < since + 3600
      → s.budget.hour_count ≤ c.per_hour
      → length (enrich_each events s).posts ≤ length s.posts + 2 * c.per_hour
  unfolding IsPaid
  enrich_each-posts since events s begun ended room =
      let (times, within, (cost, order)) = enrich_each-IsPaid events s in
      omega (
        arith,
        cost,
        granted-hour c.per_hour c.per_day since times s.budget
            (in_hour s.session.clock (enrich_each events s).session.clock since times begun ended
              within)
            room,
      )
