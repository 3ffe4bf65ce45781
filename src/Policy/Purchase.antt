-- ===== src/Policy/Purchase.antt =====
-- src/policy/policy.service.ts: the purchase of a policy. Ids are numbers, a wallet or an oracle key is
-- the list of its code units, a time is in seconds or, where `ms` says so, in milliseconds.
mod Period
pub mod Guards
pub mod Keys
unfoldable pub use Period.*
use parashield_backend.Base.{
  ℕ, ◌+◌, ◌*◌, ◌/◌, ◌%◌, Bool, true, false, not, ◌&&◌, ◌||◌, Option, none, some, List, [], ◌∷◌, any,
  ltb, leb, ◌==◌, if◌then◌else◌,
}
use parashield_backend.Decimal.{split_digits, value}
use parashield_backend.Oracle.KeyFormat.{is_crop_key, is_flight_key}
use parashield_backend.Policy.Status.{PolicyStatus, active}
use parashield_backend.Policy.Premium.{
  PremiumRateTemplate, calculate_premium, snapshot_premium_rate,
}

-- The fields of ProductSummary that a purchase reads; `coverage_min` and `coverage_max` are texts, and
-- `is_active` is `status === 'ACTIVE'`.
pub record ProductSummary : Type 0 where
  pub is_active : Bool
  pub category : Category
  pub coverage_min : List ℕ
  pub coverage_max : List ℕ
  pub rate : PremiumRateTemplate
  pub max_duration : ℕ

-- BuyPolicyDto: the coverage, which may have seven decimal places, in units of 10 ^ -7 XLM.
pub record BuyPolicyDto : Type 0 where
  pub product_id : ℕ
  pub wallet_address : List ℕ
  pub coverage_xlm : ℕ
  pub duration : ℕ
  pub oracle_key : List ℕ

-- The row that `policy.create` gets, with the coverage in the same units.
pub record NewPolicy : Type 0 where
  pub product_id : ℕ
  pub policyholder : List ℕ
  pub coverage_xlm : ℕ
  pub premium_paid : ℕ
  pub rate : PremiumRateTemplate
  pub oracle_key : List ℕ
  pub start_time_ms : ℕ
  pub end_time_ms : ℕ
  pub status : PolicyStatus
  pub tx_hash : ℕ

-- `getPoolAvailableBalance`: Infinity, the number that the token's contract answers (in 7-decimal fixed
-- point), or an exception
pub data Balance : Type 0 where
  infinite : Balance
  finite : ℕ → Balance
  balance_failed : Balance

-- The exceptions of a purchase.
pub data Refusal : Type 0 where
  product_not_found : Refusal
  duration_too_long : Refusal
  coverage_below_minimum : Refusal
  coverage_above_maximum : Refusal
  -- the RangeError or SyntaxError of a `BigInt`
  not_an_integer : Refusal
  pool_unavailable : Refusal
  above_liquidity : Refusal
  bad_key_format : Refusal
  key_outside_period : Refusal
  no_data_source : Refusal
  premium_refused : Refusal
  transaction_used : Refusal
  already_insured : Refusal
  database_failed : Refusal

-- What `policy.create` gives: the new state, the violated index of a P2002, or another exception.
pub data Created (State : Type 0) : Type 0 where
  created : State → Created State
  violates_tx_hash : Created State
  violates_other : Created State
  create_failed : Created State

-- What a purchase uses of Prisma and of the pool.
pub record Store : Type 1 where
  pub State : Type 0
  -- the product's row of an id
  pub find_product : ℕ → State → Option ProductSummary
  pub pool_balance : State → Balance
  -- `oracleReading.findFirst({ where: { key } })` finds a row
  pub has_reading : List ℕ → State → Bool
  pub create_policy : NewPolicy → State → Created State

-- `BigInt(text.split('.')[0] || '0')`, for a Decimal's text without a sign; `none` is its exception, as
-- for an exponent
abbrev pub of_split : List ℕ × List ℕ → Option ℕ
of_split (ds, []) = some (value ds)
of_split (ds, c ∷ rest) = if c == b'.' then some (value ds) else none

unfoldable pub whole_part : List ℕ → Option ℕ
whole_part text = of_split (split_digits text)

abbrev pub units_per_xlm : ℕ
units_per_xlm = 10_000_000

-- `BigInt(coverageXlm)`
unfoldable pub whole_xlm : ℕ → Option ℕ
whole_xlm coverage = if coverage % units_per_xlm == 0 then some (coverage / units_per_xlm) else none

-- `coverageXlm > poolBalance`, which compares XLM with the contract's number; `none` where the balance
-- is an exception
abbrev pub exceeds : ℕ → Balance → Option Bool
exceeds coverage infinite = some false
exceeds coverage (finite balance) = some (ltb (balance * units_per_xlm) coverage)
exceeds coverage balance_failed = none

abbrev pub check_balance : Option Bool → Option Refusal → Option Refusal
check_balance none rest = some pool_unavailable
check_balance (some true) rest = some above_liquidity
check_balance (some false) rest = rest

-- The three `BigInt`s and the two comparisons, before the rest of the checks
abbrev pub check_bounds : Option ℕ → Option ℕ → Option ℕ → Option Refusal → Option Refusal
check_bounds none max coverage rest = some not_an_integer
check_bounds (some min) none coverage rest = some not_an_integer
check_bounds (some min) (some max) none rest = some not_an_integer
check_bounds (some min) (some max) (some coverage) rest =
    if ltb coverage min
    then some coverage_below_minimum
    else if ltb max coverage
    then some coverage_above_maximum
    else rest

-- `validateCoverage` with an oracle key; `none` is valid
unfoldable pub validate_coverage : ℕ → ProductSummary → List ℕ → Balance → Option Refusal
unfolding whole_part whole_xlm
validate_coverage coverage product key balance =
    check_bounds (whole_part product.coverage_min) (whole_part product.coverage_max)
      (whole_xlm coverage)
      (check_balance (exceeds coverage balance)
        (if has_key_format product.category key then none else some bad_key_format))

-- How a purchase ends.
pub data Purchased (State : Type 0) : Type 0 where
  refused : Refusal → Purchased State
  bought : NewPolicy → State → Purchased State

-- `findFirst({ where: { id, status: 'ACTIVE' } })`, from the row of the id
abbrev pub if_active : Option ProductSummary → Option ProductSummary
if_active none = none
if_active (some product) = if product.is_active then some product else none

module _ (store : Store) where
  open store use {State}

  abbrev pub stored : NewPolicy → Created State → Purchased State
  stored p (created t) = bought p t
  stored p violates_tx_hash = refused transaction_used
  stored p violates_other = refused already_insured
  stored p create_failed = refused database_failed

  -- The row that is written, at a time in seconds.
  unfoldable pub policy_data : ℕ → BuyPolicyDto → ProductSummary → ℕ → ℕ → NewPolicy
  policy_data now dto product premium tx_hash = record {
    product_id = dto.product_id;
    policyholder = dto.wallet_address;
    coverage_xlm = dto.coverage_xlm;
    premium_paid = premium;
    rate = snapshot_premium_rate product.rate;
    oracle_key = dto.oracle_key;
    start_time_ms = now * 1000;
    end_time_ms = (now + dto.duration * 24 * 3600) * 1000;
    status = active;
    tx_hash = tx_hash;
  }

  unfoldable pub priced : ℕ → BuyPolicyDto → ProductSummary → ℕ → State → Option ℕ → Purchased State
  unfolding policy_data
  priced now dto product tx_hash s none = refused premium_refused
  priced now dto product tx_hash s (some premium) =
      let p = policy_data now dto product premium tx_hash in stored p (store.create_policy p s)

  unfoldable pub covered :
      ℕ → BuyPolicyDto → ProductSummary → ℕ → State → Option Refusal → Purchased State
  unfolding priced
  covered now dto product tx_hash s (some refusal) = refused refusal
  covered now dto product tx_hash s none =
      if not (
        is_in_period product.category dto.oracle_key (now * 1000)
          ((now + dto.duration * 24 * 3600) * 1000))
      then refused key_outside_period
      else if not (store.has_reading dto.oracle_key s)
      then refused no_data_source
      else priced now dto product tx_hash s (
          calculate_premium (dto.coverage_xlm / units_per_xlm) product.rate.premium_rate
            dto.duration)

  unfoldable pub with_product :
      ℕ → BuyPolicyDto → ℕ → State → Option ProductSummary → Purchased State
  unfolding covered
  with_product now dto tx_hash s none = refused product_not_found
  with_product now dto tx_hash s (some product) =
      if ltb product.max_duration dto.duration
      then refused duration_too_long
      else covered now dto product tx_hash s
          (validate_coverage dto.coverage_xlm product dto.oracle_key (store.pool_balance s))

  -- `getProductById`
  unfoldable pub get_product_by_id : ℕ → State → Option ProductSummary
  get_product_by_id id s = if_active (store.find_product id s)

  -- `createPolicy`
  unfoldable pub create_policy : ℕ → BuyPolicyDto → ℕ → State → Purchased State
  unfolding with_product get_product_by_id
  create_policy now dto tx_hash s =
      with_product now dto tx_hash s (get_product_by_id dto.product_id s)
