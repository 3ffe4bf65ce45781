-- ===== src/Oracle/Reading.antt =====
-- src/oracle/oracle.service.ts, one reading: the numbers that it carries, its idempotency bucket, the
-- plausibility bounds, and the screening before it is persisted.
use parashield_backend.Base.{
  ℕ, ◌+◌, ◌*◌, ◌/◌, Bool, true, false, ◌||◌, Option, ltb, ◌==◌, if◌then◌else◌,
}
use parashield_backend.Base.Int.{ℤ, pos, negsuc, ltb_ℤ}

-- A JavaScript number, as far as comparisons with whole numbers tell; `between n` lies strictly
-- between n and n + 1.
pub data Number : Type 0 where
  whole : ℤ → Number
  between : ℤ → Number
  nan infinity minus_infinity : Number

-- `x < n` and `x > n`
abbrev pub is_below : Number → ℤ → Bool
is_below (whole z) n = ltb_ℤ z n
is_below (between z) n = ltb_ℤ z n
is_below nan n = false
is_below infinity n = false
is_below minus_infinity n = true

abbrev pub is_above : Number → ℤ → Bool
is_above (whole z) n = ltb_ℤ n z
is_above (between z) n = if ltb_ℤ z n then false else true
is_above nan n = false
is_above infinity n = true
is_above minus_infinity n = false

abbrev pub is_finite : Number → Bool
is_finite (whole z) = true
is_finite (between z) = true
is_finite _ = false

abbrev pub is_zero : Number → Bool
is_zero (whole (pos n)) = n == 0
is_zero (whole (negsuc n)) = false
is_zero _ = false

-- An OracleReading on its way to the database. Strings that are only compared are numbers, `value` is
-- what `BigInt(value)` gives (`none` where it throws), `timestamp` is in thousandths of its second.
pub record Reading : Type 0 where
  pub data_type : ℕ
  pub key : ℕ
  pub value : Option ℤ
  pub confidence : Number
  pub timestamp : ℕ
  pub source : ℕ
  -- `status === "NO_DATA"`
  pub no_data : Bool

-- The source "mock"
abbrev pub mock : ℕ
mock = 0

abbrev pub oracle_bucket_ms : ℕ
oracle_bucket_ms = 3_600_000

-- `bucketStartFor`
unfoldable pub bucket_start_for : ℕ → ℕ → ℕ
bucket_start_for timestamp bucket_ms = timestamp / 1000 * 1000 / bucket_ms * bucket_ms

-- The labels and ranges of SANITY_BOUNDS.
pub data Label : Type 0 where
  rainfall temperature delay : Label

abbrev pub min_bound : Label → ℤ
min_bound rainfall = pos 0
min_bound temperature = negsuc 99
min_bound delay = pos 0

abbrev pub max_bound : Label → ℤ
max_bound rainfall = pos 20_000
max_bound temperature = pos 100
max_bound delay = pos 20_160

-- `assertWithinBounds`: whether it returns; otherwise it throws ServiceUnavailableException.
unfoldable pub is_within_bounds : Label → Number → Bool
is_within_bounds label value =
    if (if is_finite value then false else true)
      || is_below value (min_bound label)
      || is_above value (max_bound label)
    then false
    else true

-- What `persistReading` and the loop of `persistReadings` decide of a reading.
pub data Screened : Type 0 where
  -- mock, NO_DATA or of confidence 0: not persisted
  skipped : Screened
  -- an invalid confidence: not persisted
  rejected : Screened
  -- too far in the future: BadRequestException
  future : Screened
  valid : Screened

abbrev pub future_skew_tolerance_seconds : ℕ
future_skew_tolerance_seconds = 60

-- The conditions at the head of both; `now_seconds` is `Math.floor(Date.now() / 1000)`.
unfoldable pub screen : ℕ → Reading → Screened
screen now_seconds r =
    if is_zero r.confidence || r.no_data || (r.source == mock)
    then skipped
    else if (if is_finite r.confidence then false else true)
        || is_below r.confidence (pos 0)
        || is_above r.confidence (pos 100)
    then rejected
    else if ltb ((now_seconds + future_skew_tolerance_seconds) * 1000) r.timestamp
    then future
    else valid
