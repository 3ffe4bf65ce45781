-- ===== src/Tests/Purchase.antt =====
-- Witnesses for Policy.Purchase and Policy.Confirm: a store of one product in memory.
use parashield_backend.Base.{
  ℕ, refl, Bool, true, false, none, some, List, [], ◌∷◌, any, ◌==◌, if◌then◌else◌,
}
use parashield_backend.Decimal.{split_digits, value, is_space}
use parashield_backend.Policy.Purchase.{
  crop, ProductSummary, BuyPolicyDto, NewPolicy, infinite, Created, created, violates_tx_hash,
  Store, create_policy, policy_data, validate_coverage, has_key_format, is_in_period,
}
use parashield_backend.Policy.Premium.{calculate_premium}
use parashield_backend.Policy.Purchase.Keys.{IsFetched, bought_key-IsFetched}
use parashield_backend.Policy.Purchase.Guards.{IsBought, buys_only}
use parashield_backend.Policy.Confirm.{
  Keys, decoded, invoke_host_function, Transaction, pending, Network, confirm_and_create_policy,
}
use parashield_backend.Policy.Confirm.Owner.{IsOwn, sends_only-IsOwn}

-- Coverage from 100 to 5000, at most 90 days.
abbrev maize : ProductSummary
maize = record {
  is_active = true;
  category = crop;
  coverage_min = b'1' ∷ b'0' ∷ b'0' ∷ [];
  coverage_max = b'5' ∷ b'0' ∷ b'0' ∷ b'0' ∷ [];
  rate = record { premium_rate = 500; premium_rate_version = 1 };
  max_duration = 90;
}

abbrev insert : Bool → NewPolicy → List NewPolicy → Created (List NewPolicy)
insert taken p s = if taken then violates_tx_hash else created (p ∷ s)

abbrev hash_taken : NewPolicy → List NewPolicy → Bool
hash_taken p s = any (λ q. q.tx_hash == p.tx_hash) s

abbrev store : Store
store = record {
  State = List NewPolicy;
  find_product = λ id s. if id == 1 then some maize else none;
  pool_balance = λ s. infinite;
  has_reading = λ key s. true;
  create_policy = λ p s. insert (hash_taken p s) p s;
}

-- rainfall:1,2:2026-06
abbrev june_key : List ℕ
june_key =
    b'r' ∷ b'a' ∷ b'i' ∷ b'n' ∷ b'f' ∷ b'a' ∷ b'l' ∷ b'l' ∷ b':' ∷ b'1' ∷ b',' ∷ b'2' ∷ b':' ∷ b'2'
    ∷ b'0' ∷ b'2' ∷ b'6' ∷ b'-' ∷ b'0' ∷ b'6' ∷ []

bought_key-IsFetched_example : IsFetched crop june_key
unfolding has_key_format split_digits
bought_key-IsFetched_example = bought_key-IsFetched crop june_key refl

abbrev wallet : List ℕ
wallet = b'G' ∷ b'A' ∷ []

abbrev dto : ℕ → BuyPolicyDto
dto duration = record {
  product_id = 1;
  wallet_address = wallet;
  coverage_xlm = 10_000_000_000;
  duration = duration;
  oracle_key = june_key;
}

-- 2026-06-10T00:00:00Z
abbrev june_10 : ℕ
june_10 = 1_781_049_600

abbrev june_policy : NewPolicy
june_policy = policy_data store june_10 (dto 30) maize 50 7

buys_only_example : IsBought store june_10 (dto 30) 7 [] june_policy (june_policy ∷ [])
unfolding create_policy validate_coverage value split_digits has_key_format is_in_period
    calculate_premium
buys_only_example = buys_only store june_10 (dto 30) 7 [] june_policy (june_policy ∷ []) refl

abbrev keys : Keys
keys = record { is_muxed = λ a. false; is_valid = λ a. true }

abbrev network : Network keys store
network = record {
  simulates = λ tx s. true;
  send = λ tx s. (pending 7, s);
  confirms = λ hash s. (true, s);
}

abbrev purchase : Transaction
purchase = record {
  max_time = june_10;
  source = some wallet;
  operations =
      (
        none,
        invoke_host_function (
            some (record {
              contract = some 3;
              is_buy_policy = true;
              arguments = decoded 1 (some 10_000_000_000) june_key;
            })),
      )
      ∷ [];
}

sends_only-IsOwn_example : IsOwn keys june_10 wallet (some 3) (dto 30) purchase
unfolding confirm_and_create_policy is_space
sends_only-IsOwn_example =
    sends_only-IsOwn keys store network june_10 june_10 wallet (some 3) (dto 30) purchase [] refl
