-- ===== src/Policy/Premium.antt =====
-- src/policy/policy.service.ts (calculatePremium, calculateProRatedRefund) and
-- src/policy/premium-rate-versioning.ts. A Decimal(20, 7) column is its number of stroops, 10^-7
-- XLM, and a Date is its milliseconds since the epoch, as naturals.
pub mod Bounds
pub mod Refund
pub mod Versions
use parashield_backend.Base.{
  ℕ, ◌+◌, ◌-◌, ◌*◌, ◌/◌, ◌%◌, not, ◌||◌, Option, none, some, ltb, leb, ◌==◌, if◌then◌else◌,
}

abbrev pub max_premium_coverage_xlm : ℕ
max_premium_coverage_xlm = 1_000_000_000

abbrev pub max_premium_rate_bps : ℕ
max_premium_rate_bps = 10_000

abbrev pub max_premium_duration_days : ℕ
max_premium_duration_days = 365

-- The arguments are integers (`Number.isInteger`). `none` is a BadRequestException.
unfoldable pub calculate_premium : ℕ → ℕ → ℕ → Option ℕ
calculate_premium coverage_xlm premium_rate duration_days =
    if ltb coverage_xlm 1 || ltb max_premium_coverage_xlm coverage_xlm
    then none
    else if ltb premium_rate 1 || ltb max_premium_rate_bps premium_rate
    then none
    else if ltb duration_days 1 || ltb max_premium_duration_days duration_days
    then none
    else let numerator = coverage_xlm * premium_rate * duration_days in
      let denominator : ℕ = 10000 * 30 in
      let floored = numerator / denominator in
      let remainder = numerator % denominator in
      some (if ltb 0 remainder then floored + 1 else floored)

-- The amount in stroops, before `formatStroops`. `endTime - startTime` at most 0 gives 0, and
-- `Math.max(0, endTime - now)` is the subtraction of naturals.
unfoldable pub refund_stroops : ℕ → ℕ → ℕ → ℕ → ℕ
refund_stroops premium_stroops start_time end_time now =
    if leb end_time start_time
    then 0
    else let total_ms = end_time - start_time in
      let remaining_ms = end_time - now in
      let capped_ms = if ltb total_ms remaining_ms then total_ms else remaining_ms in
      premium_stroops * capped_ms / total_ms

pub record PremiumRateTemplate : Type 0 where
  pub premium_rate : ℕ
  pub premium_rate_version : ℕ

-- `none` is an update without a rate.
unfoldable pub next_premium_rate_version : PremiumRateTemplate → Option ℕ → ℕ
next_premium_rate_version current none = current.premium_rate_version
next_premium_rate_version current (some next_rate) =
    if not (next_rate == current.premium_rate)
    then current.premium_rate_version + 1
    else current.premium_rate_version

-- The rate part of the `data` that updateProduct writes.
unfoldable pub update_rate : PremiumRateTemplate → Option ℕ → PremiumRateTemplate
update_rate existing none = existing
update_rate existing (some premium_rate) = record {
  premium_rate = premium_rate;
  premium_rate_version = next_premium_rate_version existing (some premium_rate);
}

unfoldable pub snapshot_premium_rate : PremiumRateTemplate → PremiumRateTemplate
snapshot_premium_rate template = record {
  premium_rate = template.premium_rate;
  premium_rate_version = template.premium_rate_version;
}
