-- ===== src/Policy/Purchase/Period.antt =====
-- src/policy/policy.service.ts, `validateOracleKey`: the form of a product's keys and the period that a
-- key names. Years run from 1970 to 2100, where the years divisible by 4 but for 2100 are leap years.
use parashield_backend.Base.{
  ℕ, ◌+◌, ◌-◌, ◌*◌, ◌/◌, ◌%◌, Bool, true, false, ◌&&◌, ◌||◌, Option, some, List, [], ◌∷◌, ltb, leb,
  ◌==◌, if◌then◌else◌,
}
use parashield_backend.Decimal.{value}
use parashield_backend.Oracle.KeyFormat.{
  is_crop_key, is_flight_key, after_coordinates, after_flight,
}

pub data Category : Type 0 where
  crop flight other_category : Category

-- The two tests at its head.
unfoldable pub has_key_format : Category → List ℕ → Bool
unfolding is_crop_key is_flight_key
has_key_format crop key = is_crop_key key
has_key_format flight key = is_flight_key key
has_key_format other_category key = true

abbrev pub day_ms : ℕ
day_ms = 86_400_000

-- The days from 1970-01-01 to the first of a year, and from there to the first of a month.
abbrev days_before_year : ℕ → ℕ
days_before_year year = 365 * (year - 1970) + (year - 1969) / 4

abbrev days_in_months : ℕ → ℕ
days_in_months month =
    if leb month 1
    then 0
    else if month == 2
    then 31
    else if month == 3
    then 59
    else if month == 4
    then 90
    else if month == 5
    then 120
    else if month == 6
    then 151
    else if month == 7
    then 181
    else if month == 8
    then 212
    else if month == 9
    then 243
    else if month == 10
    then 273
    else if month == 11
    then 304
    else 334

abbrev leap_day : ℕ → ℕ → ℕ
leap_day year month = if ltb 2 month && (year % 4 == 0) then 1 else 0

-- `new Date('YYYY-MM-01T00:00:00.000Z')`, in ms
unfoldable pub month_start : ℕ → ℕ → ℕ
month_start year month =
    (days_before_year year + days_in_months month + leap_day year month) * day_ms

-- `setUTCMonth(getUTCMonth() + 1)`
unfoldable pub next_month_start : ℕ → ℕ → ℕ
unfolding month_start
next_month_start year month =
    if month == 12 then month_start (year + 1) 1 else month_start year (month + 1)

-- `new Date('YYYY-MM-DDT00:00:00.000Z')`; a day past the end of its month counts on into the next
unfoldable pub date_start : ℕ → ℕ → ℕ → ℕ
unfolding month_start
date_start year month day = month_start year month + (day - 1) * day_ms

-- The tests of the coverage period, on what follows a crop key's coordinates and a flight key's code.
unfoldable pub month_overlaps : ℕ → ℕ → Option (List ℕ) → Bool
unfolding month_start next_month_start
month_overlaps start_ms end_ms (some (a ∷ b ∷ c ∷ d ∷ e ∷ f ∷ g ∷ [])) =
    let year = value (a ∷ b ∷ c ∷ d ∷ []) in
    let month = value (f ∷ g ∷ []) in
    if leb end_ms (month_start year month) || leb (next_month_start year month) start_ms
    then false
    else true
month_overlaps start_ms end_ms _ = true

unfoldable pub date_is_within : ℕ → ℕ → Option (List ℕ) → Bool
unfolding date_start
date_is_within start_ms end_ms (some (a ∷ b ∷ c ∷ d ∷ e ∷ f ∷ g ∷ h ∷ i ∷ j ∷ [])) =
    let date = date_start (value (a ∷ b ∷ c ∷ d ∷ [])) (value (f ∷ g ∷ [])) (value (i ∷ j ∷ [])) in
    if ltb date start_ms || ltb end_ms date then false else true
date_is_within start_ms end_ms _ = true

-- `validateOracleKey` with a period, for a key of the product's form
unfoldable pub is_in_period : Category → List ℕ → ℕ → ℕ → Bool
unfolding month_overlaps date_is_within after_coordinates after_flight
is_in_period crop key start_ms end_ms = month_overlaps start_ms end_ms (after_coordinates key)
is_in_period flight key start_ms end_ms = date_is_within start_ms end_ms (after_flight key)
is_in_period other_category key start_ms end_ms = true
