-- ===== src/Policy/Purchase/Guards.antt =====
-- What a purchase that succeeds has passed.
use parashield_backend.Base.{
  ℕ, ◌+◌, ◌*◌, ◌/◌, ◌≤◌, ◌≡◌, refl, sym, ap, ◌∙◌, Bool, true, false, not, Option, none, some, List,
  ltb, if◌then◌else◌, arith,
}
use parashield_backend.Policy.Premium.{calculate_premium}
use parashield_backend.Policy.Purchase.{
  ProductSummary, BuyPolicyDto, NewPolicy, Balance, Refusal, Created, created, violates_tx_hash,
  violates_other, create_failed, Store, whole_part, whole_xlm, units_per_xlm, check_bounds,
  if_active, get_product_by_id, exceeds, check_balance, validate_coverage, Purchased, refused,
  bought, stored, policy_data, priced, covered, with_product, create_policy, has_key_format,
  is_in_period,
}

-- What a coverage, in units of 10 ^ -7 XLM, satisfies that is valid for a product, a key and a balance.
pub record IsCoverable (coverage : ℕ) (product : ProductSummary) (key : List ℕ) (balance : Balance)
    : Type 0 where
  pub minimum : ℕ
  pub maximum : ℕ
  pub xlm : ℕ
  pub minimum_text : whole_part product.coverage_min ≡ some minimum
  pub maximum_text : whole_part product.coverage_max ≡ some maximum
  pub is_whole : coverage ≡ xlm * units_per_xlm
  pub at_least_minimum : minimum ≤ xlm
  pub at_most_maximum : xlm ≤ maximum
  pub is_liquid : exceeds coverage balance ≡ some false
  pub well_formed_key : has_key_format product.category key ≡ true

refusal_kept :
    (b : Bool) (r : Refusal) (rest : Option Refusal)
    → (if b then some r else rest) ≡ none
    → (b ≡ false) × (rest ≡ none)
refusal_kept true r rest h = cc
refusal_kept false r rest h = (refl, h)

balance_passed :
    (o : Option Bool) (rest : Option Refusal)
    → check_balance o rest ≡ none
    → (o ≡ some false) × (rest ≡ none)
balance_passed none rest h = cc
balance_passed (some true) rest h = cc
balance_passed (some false) rest h = (refl, h)

format_passed : (b : Bool) (r : Refusal) → (if b then none else some r) ≡ none → b ≡ true
format_passed true r h = refl
format_passed false r h = cc

whole_xlm-exact :
    (coverage xlm : ℕ) → whole_xlm coverage ≡ some xlm → coverage ≡ xlm * units_per_xlm
unfolding whole_xlm
whole_xlm-exact coverage xlm h = ground arith

-- The numbers of the bounds, and that they are kept.
bounds_passed :
    (min max coverage : Option ℕ) (rest : Option Refusal)
    → check_bounds min max coverage rest ≡ none
    → (l : ℕ) × (u : ℕ) × (c : ℕ) × (min ≡ some l)
      × (max ≡ some u)
      × (coverage ≡ some c)
      × (l ≤ c)
      × (c ≤ u)
      × (rest ≡ none)
bounds_passed none max coverage rest h = absurd cc
bounds_passed (some l) none coverage rest h = absurd cc
bounds_passed (some l) (some u) none rest h = absurd cc
bounds_passed (some l) (some u) (some c) rest h =
    let (low, h1) = refusal_kept (ltb c l) _ _ h in
    let (high, h2) = refusal_kept (ltb u c) _ _ h1 in
    (l, u, c, refl, refl, refl, ground arith, ground arith, h2)

pub validate_coverage-none :
    (coverage : ℕ) (product : ProductSummary) (key : List ℕ) (balance : Balance)
    → validate_coverage coverage product key balance ≡ none
    → IsCoverable coverage product key balance
unfolding validate_coverage
validate_coverage-none coverage product key balance h =
    let (l, u, c, min, max, whole, low, high, h1) =
      bounds_passed (whole_part product.coverage_min) (whole_part product.coverage_max)
        (whole_xlm coverage) _ h in
    let (liquid, h2) = balance_passed (exceeds coverage balance) _ h1 in
    record {
      minimum = l;
      maximum = u;
      xlm = c;
      minimum_text = min;
      maximum_text = max;
      is_whole = whole_xlm-exact coverage c whole;
      at_least_minimum = low;
      at_most_maximum = high;
      is_liquid = liquid;
      well_formed_key = format_passed (has_key_format product.category key) _ h2;
    }

active_kept :
    (b : Bool) (q p : ProductSummary)
    → q.is_active ≡ b
    → (if b then some q else none) ≡ some p
    → (some q ≡ some p) × (p.is_active ≡ true)
active_kept true q p e h = let same : q ≡ p = cc in (h, sym (ap ProductSummary.is_active same) ∙ e)
active_kept false q p e h = absurd cc

active_product :
    (o : Option ProductSummary) (p : ProductSummary)
    → if_active o ≡ some p
    → (o ≡ some p) × (p.is_active ≡ true)
active_product none p h = absurd cc
active_product (some q) p h = active_kept q.is_active q p refl h

module _ (store : Store) where
  -- What holds of a row that a purchase has written.
  pub record IsBought (now : ℕ) (dto : BuyPolicyDto) (tx_hash : ℕ) (s : store.State) (p : NewPolicy)
      (t : store.State) : Type 0 where
    pub product : ProductSummary
    pub found : store.find_product dto.product_id s ≡ some product
    pub active : product.is_active ≡ true
    pub short_enough : dto.duration ≤ product.max_duration
    pub coverable : IsCoverable dto.coverage_xlm product dto.oracle_key (store.pool_balance s)
    pub in_period :
        is_in_period product.category dto.oracle_key
          (now * 1000)
          ((now + dto.duration * 24 * 3600) * 1000)
        ≡ true
    pub has_source : store.has_reading dto.oracle_key s ≡ true
    pub premium : ℕ
    pub priced :
        calculate_premium (dto.coverage_xlm / units_per_xlm) product.rate.premium_rate dto.duration
        ≡ some premium
    pub row : p ≡ policy_data store now dto product premium tx_hash
    pub written : store.create_policy p s ≡ created t

  branch_refused :
      (b : Bool) (r : Refusal) (rest : Purchased store.State) (p : NewPolicy) (t : store.State)
      → (if b then refused r else rest) ≡ bought p t
      → (b ≡ false) × (rest ≡ bought p t)
  branch_refused true r rest p t h = cc
  branch_refused false r rest p t h = (refl, h)

  holds : (b : Bool) → not b ≡ false → b ≡ true
  holds true h = refl
  holds false h = cc

  stored-bought :
      (q p : NewPolicy) (c : Created store.State) (t : store.State)
      → stored store q c ≡ bought p t
      → (p ≡ q) × (c ≡ created t)
  stored-bought q p (created u) t h = (cc, cc)
  stored-bought q p violates_tx_hash t h = cc
  stored-bought q p violates_other t h = cc
  stored-bought q p create_failed t h = cc

  priced-bought :
      (now : ℕ) (dto : BuyPolicyDto) (product : ProductSummary) (tx_hash : ℕ) (s : store.State)
      (o : Option ℕ) (p : NewPolicy) (t : store.State)
      → priced store now dto product tx_hash s o ≡ bought p t
      → (premium : ℕ) × (o ≡ some premium)
        × (p ≡ policy_data store now dto product premium tx_hash)
        × (store.create_policy p s ≡ created t)
  unfolding priced
  priced-bought now dto product tx_hash s none p t h = cc
  priced-bought now dto product tx_hash s (some premium) p t h =
      let q = policy_data store now dto product premium tx_hash in
      let (same, made) = stored-bought q p (store.create_policy q s) t h in
      (premium, refl, same, rw same made)

  covered-bought :
      (now : ℕ) (dto : BuyPolicyDto) (product : ProductSummary) (tx_hash : ℕ) (s : store.State)
      (o : Option Refusal) (p : NewPolicy) (t : store.State)
      → get_product_by_id store dto.product_id s ≡ some product
      → dto.duration ≤ product.max_duration
      → validate_coverage dto.coverage_xlm product dto.oracle_key (store.pool_balance s) ≡ o
      → covered store now dto product tx_hash s o ≡ bought p t
      → IsBought now dto tx_hash s p t
  unfolding covered get_product_by_id
  covered-bought now dto product tx_hash s (some r) p t f d v h = cc
  covered-bought now dto product tx_hash s none p t f d v h =
      let (period, h1) =
        branch_refused
          (not (
            is_in_period product.category dto.oracle_key (now * 1000)
              ((now + dto.duration * 24 * 3600) * 1000)))
          _ _ p t h in
      let (source, h2) = branch_refused (not (store.has_reading dto.oracle_key s)) _ _ p t h1 in
      let (premium, e, same, made) = priced-bought now dto product tx_hash s _ p t h2 in
      let (found, active) = active_product (store.find_product dto.product_id s) product f in
      record {
        product = product;
        found = found;
        active = active;
        short_enough = d;
        coverable =
            validate_coverage-none dto.coverage_xlm product dto.oracle_key (store.pool_balance s) v;
        in_period = holds _ period;
        has_source = holds _ source;
        premium = premium;
        priced = e;
        row = same;
        written = made;
      }

  with_product-bought :
      (now : ℕ) (dto : BuyPolicyDto) (tx_hash : ℕ) (s : store.State) (o : Option ProductSummary)
      (p : NewPolicy) (t : store.State)
      → get_product_by_id store dto.product_id s ≡ o
      → with_product store now dto tx_hash s o ≡ bought p t
      → IsBought now dto tx_hash s p t
  unfolding with_product
  with_product-bought now dto tx_hash s none p t f h = cc
  with_product-bought now dto tx_hash s (some product) p t f h =
      let (short, h1) = branch_refused (ltb product.max_duration dto.duration) _ _ p t h in
      covered-bought now dto product tx_hash s _ p t f (ground arith) refl h1

  -- A policy is only written for a product whose row is ACTIVE, with a duration up to the product's, a
  -- coverage that is a whole number of XLM, between the whole parts of the product's bounds and, as a
  -- number of XLM, at most the number that the pool's contract answers, a key of the product's form
  -- whose period meets the coverage period and that has a reading, and an accepted premium; and the row
  -- holds these data.
  pub buys_only :
      (now : ℕ) (dto : BuyPolicyDto) (tx_hash : ℕ) (s : store.State) (p : NewPolicy)
      (t : store.State)
      → create_policy store now dto tx_hash s ≡ bought p t
      → IsBought now dto tx_hash s p t
  unfolding create_policy
  buys_only now dto tx_hash s p t h = with_product-bought now dto tx_hash s _ p t refl h
