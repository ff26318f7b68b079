-- ===== src/Bridge/Worker/Backoff.antt =====
-- The delays between the attempts.
use hpe_com_event_integratio.Base.{ℕ, zero, suc, ◌+◌, ◌*◌, ◌^◌, ◌-◌, ◌≤◌, ◌<◌, min, ◌≡◌, arith}
use native.Mathlib.Nat.{pow-suc}
use hpe_com_event_integratio.Bridge.Worker.{Setup, retry_delay}

-- After the first failure the delay is the base delay, after each further one it doubles, and it
-- never passes the cap.
pub retry_delay_doubles :
    (c : Setup) (n : ℕ)
    → (retry_delay c 1 ≡ min c.retry_seconds c.retry_cap)
      × (retry_delay c (n + 2) ≡ min (2 * retry_delay c (n + 1)) c.retry_cap)
      × (retry_delay c n ≤ c.retry_cap)
unfolding retry_delay
retry_delay_doubles c n =
    let two : n + 2 - 1 ≡ suc n = omega arith in
    let one : n + 1 - 1 ≡ n = omega arith in
    (omega arith, rw (two, one, pow-suc) (omega arith), omega arith)

two_pow_pos : (n : ℕ) → 0 < 2 ^ n
two_pow_pos zero = omega arith
two_pow_pos (suc n) = rw pow-suc (omega (arith, two_pow_pos n))

product_pos : (a b : ℕ) → 0 < a → 0 < b → 0 < a * b
product_pos a b h k = grind arith

-- With a positive base delay and a positive cap, a row that failed is not due again at once.
retry_delay_pos : (c : Setup) (n : ℕ) → 0 < c.retry_seconds → 0 < c.retry_cap → 0 < retry_delay c n
unfolding retry_delay
retry_delay_pos c n base cap =
    omega (arith, product_pos c.retry_seconds (2 ^ (n - 1)) base (two_pow_pos (n - 1)))
