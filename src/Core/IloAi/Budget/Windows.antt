-- ===== src/Core/IloAi/Budget/Windows.antt =====
-- How many analyses the budget grants.
use hpe_com_event_integratio.Base.{
  ℕ, ◌+◌, ◌-◌, ◌*◌, ◌≤◌, ◌<◌, List, [], ◌∷◌, ◌≡◌, inl, inr, arith, All, Bool-cases, leb, leb→le,
}
use hpe_com_event_integratio.Core.IloAi.Budget.{Budget, roll, consume, take, counted, granted}

module _ (per_hour per_day : ℕ) where
  -- The counters are within the caps.
  abbrev pub IsWithin : Budget → Type 0
  IsWithin b = (b.hour_count ≤ per_hour) × (b.day_count ≤ per_day)

  -- Whatever the times, also where the clock goes back, a request to the budget keeps the counters
  -- within the caps.
  pub take-IsWithin : (now : ℕ) (b : Budget) → IsWithin b → IsWithin (take per_hour per_day now b).1
  unfolding take roll consume
  take-IsWithin now b h = ground (arith, h)

  -- What one request does to the hourly counter.
  take-hour :
      (now : ℕ) (b : Budget)
      → b.hour_count ≤ per_hour
      → now - b.hour_start < 3600
      → ((take per_hour per_day now b).1.hour_start ≡ b.hour_start)
        × (((take per_hour per_day now b).1.hour_count
              ≡ b.hour_count + counted per_hour per_day (take per_hour per_day now b).0)
            × ((take per_hour per_day now b).1.hour_count ≤ per_hour))
  unfolding take roll consume
  take-hour now b h young = ground (arith, h, young)

  take-new_hour :
      (now : ℕ) (b : Budget)
      → 3600 ≤ now - b.hour_start
      → ((take per_hour per_day now b).1.hour_start ≡ now)
        × (((take per_hour per_day now b).1.hour_count
              ≡ counted per_hour per_day (take per_hour per_day now b).0)
            × ((take per_hour per_day now b).1.hour_count ≤ per_hour))
  unfolding take roll consume
  take-new_hour now b old = ground (arith, old)

  All-soon :
      (since : ℕ) (times : List ℕ)
      → All (λ now. (since ≤ now) × (now < since + 3600)) times
      → All (λ now. now < since + 3600) times
  All-soon since [] h = tt
  All-soon since (now ∷ times) ((begun, soon), h) = (soon, All-soon since times h)

  -- With a window that began in the period, no other begins in it.
  granted-in_window :
      (since : ℕ) (times : List ℕ) (b : Budget)
      → All (λ now. now < since + 3600) times
      → since ≤ b.hour_start
      → b.hour_count ≤ per_hour
      → granted per_hour per_day times b + b.hour_count ≤ per_hour
  unfolding granted
  granted-in_window since [] b h late room = omega (arith, room)
  granted-in_window since (now ∷ times) b (soon, h) late room =
      let (start, (count, bound)) = take-hour now b room (omega (arith, soon, late)) in
      omega (
        arith,
        start,
        count,
        bound,
        granted-in_window since times (take per_hour per_day now b).1 h (omega (arith, late, start))
            bound,
      )

  granted-two_windows :
      (since : ℕ) (times : List ℕ) (b : Budget)
      → All (λ now. (since ≤ now) × (now < since + 3600)) times
      → b.hour_count ≤ per_hour
      → granted per_hour per_day times b + b.hour_count ≤ 2 * per_hour
  unfolding granted
  granted-two_windows since [] b h room = omega (arith, room)
  granted-two_windows since (now ∷ times) b ((begun, soon), h) room =
      let b1 : Budget = (take per_hour per_day now b).1 in
      elim (Bool-cases (leb 3600 (now - b.hour_start))) [
        | inl e ↦
            let (start, (count, bound)) =
              take-new_hour now b (leb→le 3600 (now - b.hour_start) e) in
            omega (
              arith,
              count,
              room,
              granted-in_window since times b1 (All-soon since times h)
                  (omega (arith, start, begun)) bound,
            )
        | inr e ↦
            let (start, (count, bound)) = take-hour now b room (ground (arith, e)) in
            omega (arith, count, granted-two_windows since times b1 h bound)
      ]

  -- In any period of less than an hour, the budget grants at most twice the hourly cap: once for the
  -- window that is open at its beginning, and once for the one that may begin in it.
  pub granted-hour :
      (since : ℕ) (times : List ℕ) (b : Budget)
      → All (λ now. (since ≤ now) × (now < since + 3600)) times
      → b.hour_count ≤ per_hour
      → granted per_hour per_day times b ≤ 2 * per_hour
  granted-hour since times b h room = omega (arith, granted-two_windows since times b h room)
