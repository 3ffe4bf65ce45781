-- ===== src/Policy/Premium/Bounds.antt =====
-- What calculatePremium promises.
use parashield_backend.Base.{
  ℕ, ◌+◌, ◌*◌, ◌/◌, ◌%◌, ◌^◌, ◌≤◌, ◌<◌, ◌≡◌, some, arith, ltb, if◌then◌else◌,
}
use native.Mathlib.Nat.{le_trans, mul-le-mul, mul-pos}
use parashield_backend.Policy.Premium.{
  calculate_premium, max_premium_coverage_xlm, max_premium_rate_bps, max_premium_duration_days,
}

-- The inputs that the guards let through.
pub record InBounds (c r d : ℕ) : Type 0 where
  pub coverage_low : 1 ≤ c
  pub coverage_high : c ≤ max_premium_coverage_xlm
  pub rate_low : 1 ≤ r
  pub rate_high : r ≤ max_premium_rate_bps
  pub duration_low : 1 ≤ d
  pub duration_high : d ≤ max_premium_duration_days

ceil_step : ℕ → ℕ → ℕ
ceil_step n k = if ltb 0 (n % k) then n / k + 1 else n / k

ceil_least :
    (n : ℕ) → (n ≤ ceil_step n 300000 * 300000) × (ceil_step n 300000 * 300000 < n + 300000)
unfolding ceil_step
ceil_least n = ground arith

price_bound : (c r d : ℕ) → InBounds c r d → c * r * d ≤ 3_650_000_000_000_000
price_bound c r d h =
    le_trans (mul-le-mul (mul-le-mul h.coverage_high h.rate_high) h.duration_high) (omega arith)

price_pos : (c r d : ℕ) → InBounds c r d → 0 < c * r * d
price_pos c r d h = mul-pos (mul-pos h.coverage_low h.rate_low) h.duration_low

-- For an input within the three bounds a premium is returned. It is c * r * d / 300000 rounded up: it
-- covers the exact price, and one XLM less would not. It is at least 1 and small enough for an exact
-- Number.
pub premium_is_ceiling :
    (c r d : ℕ)
    → InBounds c r d
    → (p : ℕ) × (calculate_premium c r d ≡ some p)
      × (c * r * d ≤ p * 300000)
      × (p * 300000 < c * r * d + 300000)
      × (1 ≤ p)
      × (p < 2 ^ 53)
unfolding calculate_premium ceil_step
premium_is_ceiling c r d h =
    let (low, high) = ceil_least (c * r * d) in
    (
      ceil_step (c * r * d) 300000,
      ground arith,
      low,
      high,
      omega (arith, price_pos c r d h),
      omega (arith, price_bound c r d h),
    )

-- A premium is returned for no input outside the bounds.
pub premium_guarded : (c r d : ℕ) {p : ℕ} → calculate_premium c r d ≡ some p → InBounds c r d
unfolding calculate_premium
premium_guarded c r d h = ground arith
