-- ===== src/Core/IloAi/Budget.antt =====
-- com-event-core/com_event_core/enrich/ilo_ai.py: `_Budget`. The lock makes a `take` one step; the time
-- is in seconds.
pub mod Windows
use hpe_com_event_integratio.Base.{
  ℕ, ◌+◌, ◌-◌, Bool, true, false, List, [], ◌∷◌, ◌||◌, leb, if◌then◌else◌,
}

pub record Budget : Type 0 where
  pub hour_start : ℕ
  pub day_start : ℕ
  pub hour_count : ℕ
  pub day_count : ℕ
  pub tripped : Bool

abbrev pub new_budget : Budget
new_budget = record {
  hour_start = 0;
  day_start = 0;
  hour_count = 0;
  day_count = 0;
  tripped = false;
}

module _ (per_hour per_day : ℕ) where
  -- The windows that have passed start again.
  unfoldable pub roll : ℕ → Budget → Budget
  roll now b = record b {
    hour_start = (if leb 3600 (now - b.hour_start) then now else b.hour_start);
    hour_count = (if leb 3600 (now - b.hour_start) then 0 else b.hour_count);
    day_start = (if leb 86400 (now - b.day_start) then now else b.day_start);
    day_count = (if leb 86400 (now - b.day_start) then 0 else b.day_count);
  }

  abbrev pub is_over : Budget → Bool
  is_over b = leb per_hour b.hour_count || leb per_day b.day_count

  unfoldable pub consume : Budget → Bool × Budget
  consume b = if is_over b then (false, record b { tripped = true }) else (
    true,
    record b { tripped = false; hour_count = b.hour_count + 1; day_count = b.day_count + 1 },
  )

  -- `take`
  unfoldable pub take : ℕ → Budget → Bool × Budget
  unfolding roll consume
  take now b = consume (roll now b)

  abbrev pub counted : Bool → ℕ
  counted true = 1
  counted false = 0

  -- The number of units that are granted at the given times.
  unfoldable pub granted : List ℕ → Budget → ℕ
  unfolding take
  granted [] b = 0
  granted (now ∷ times) b = let (got, b1) = take now b in counted got + granted times b1
