-- ===== src/Policy/Confirm/Owner.antt =====
-- What a transaction that is sent has passed.
use parashield_backend.Base.{
  ℕ, ◌≤◌, ◌<◌, ◌≡◌, refl, ap, ◌∙◌, Bool, true, false, ◌&&◌, ◌||◌, Option, none, some, List, [], ◌∷◌,
  All, ltb, leb, ◌==◌, if◌then◌else◌, and_parts, or_parts, ==_iff, arith,
}
use parashield_backend.Decimal.{trim, is_empty}
use parashield_backend.Policy.Purchase.{BuyPolicyDto, Store}
use parashield_backend.Policy.Confirm.{
  Keys, SourceError, forbidden, text_eq, text_eq-eq, validate_account_address, check_source,
  check_sources, check_envelope, validate_transaction_source, Arguments, too_few, undecodable,
  decoded, Invocation, Operation, other_type, invoke_host_function, Transaction, ConfirmError, gone,
  wrong_function, wrong_contract, wallet_mismatch, then_check, sources, raise_source,
  check_arguments, check_contract, check_invocation, check_operation, check_wallet,
  check_transaction, Network, Confirmed, not_sent, not_confirmed, confirmed, unless_refused,
  confirm_and_create_policy,
}

both_pass {ℓ} : {E : Type ℓ} (a b : Option E) → then_check a b ≡ none → (a ≡ none) × (b ≡ none)
both_pass none b h = (refl, h)
both_pass (some e) b h = cc

test_fails {ℓ} : {E : Type ℓ} (b : Bool) (e : E) → (if b then some e else none) ≡ none → b ≡ false
test_fails true e h = cc
test_fails false e h = refl

test_holds {ℓ} : {E : Type ℓ} (b : Bool) (e : E) → (if b then none else some e) ≡ none → b ≡ true
test_holds true e h = refl
test_holds false e h = cc

wallet_or_rest :
    (b : Bool) (rest : Option SourceError)
    → (if b then some forbidden else rest) ≡ none
    → (b ≡ false) × (rest ≡ none)
wallet_or_rest true rest h = cc
wallet_or_rest false rest h = (refl, h)

-- The first operation calls `buy_policy` of the configured contract with the request's data.
pub record IsPurchase (expected : Option ℕ) (dto : BuyPolicyDto) (i : Invocation) : Type 0 where
  pub contract : ℕ
  pub configured : expected ≡ some contract
  pub called : i.contract ≡ some contract
  pub buys : i.is_buy_policy ≡ true
  pub arguments : i.arguments ≡ decoded dto.product_id (some dto.coverage_xlm) dto.oracle_key

contract_passed :
    (c expected : Option ℕ)
    → check_contract c expected ≡ none
    → (k : ℕ) × (expected ≡ some k) × (c ≡ some k)
contract_passed none expected h = cc
contract_passed (some c) none h = cc
contract_passed (some c) (some k) h =
    let e : c ≡ k = (==_iff c k).0 (test_holds (c == k) wrong_contract h) in (k, refl, ap some e)

arguments_passed :
    (a : Arguments) (dto : BuyPolicyDto)
    → check_arguments a dto ≡ none
    → a ≡ decoded dto.product_id (some dto.coverage_xlm) dto.oracle_key
arguments_passed too_few dto h = cc
arguments_passed undecodable dto h = cc
arguments_passed (decoded p none k) dto h = cc
arguments_passed (decoded p (some c) k) dto h =
    let (pc, ek) =
      and_parts ((p == dto.product_id) && (c == dto.coverage_xlm)) (text_eq k dto.oracle_key)
        (test_holds _ _ h) in
    let (ep, ec) = and_parts (p == dto.product_id) (c == dto.coverage_xlm) pc in
    let p' : p ≡ dto.product_id = (==_iff p dto.product_id).0 ep in
    let c' : c ≡ dto.coverage_xlm = (==_iff c dto.coverage_xlm).0 ec in
    let k' : k ≡ dto.oracle_key = text_eq-eq k dto.oracle_key ek in
    ap (λ v. decoded v (some c) k) p'
    ∙ ap (λ v. decoded dto.product_id (some v) k) c'
    ∙ ap (λ v. decoded dto.product_id (some dto.coverage_xlm) v) k'

invocation_passed :
    (i : Invocation) (expected : Option ℕ) (dto : BuyPolicyDto)
    → check_invocation i expected dto ≡ none
    → IsPurchase expected dto i
invocation_passed i expected dto h =
    let (c, rest) = both_pass (check_contract i.contract expected) _ h in
    let (f, a) =
      both_pass (if i.is_buy_policy then none else some wrong_function)
        (check_arguments i.arguments dto) rest in
    let (k, e, called) = contract_passed i.contract expected c in
    record {
      contract = k;
      configured = e;
      called = called;
      buys = test_holds i.is_buy_policy wrong_function f;
      arguments = arguments_passed i.arguments dto a;
    }

-- The first operation of a list is such an invocation.
abbrev pub Begins : Option ℕ → BuyPolicyDto → List (Option (List ℕ) × Operation) → Type 0
Begins expected dto [] = ⊥
Begins expected dto ((source, other_type) ∷ os) = ⊥
Begins expected dto ((source, invoke_host_function none) ∷ os) = ⊥
Begins expected dto ((source, invoke_host_function (some i)) ∷ os) = IsPurchase expected dto i

operation_passed :
    (os : List (Option (List ℕ) × Operation)) (expected : Option ℕ) (dto : BuyPolicyDto)
    → check_operation os expected dto ≡ none
    → Begins expected dto os
unfolding check_operation
operation_passed [] expected dto h = absurd cc
operation_passed ((source, other_type) ∷ os) expected dto h = absurd cc
operation_passed ((source, invoke_host_function none) ∷ os) expected dto h = absurd cc
operation_passed ((source, invoke_host_function (some i)) ∷ os) expected dto h =
    invocation_passed i expected dto h

module _ (keys : Keys) where
  -- A source, where there is one, is the account.
  abbrev pub IsFrom : List ℕ → Option (List ℕ) → Type 0
  IsFrom account none = Unit
  IsFrom account (some source) = validate_account_address keys source ≡ some account

  source_passed :
      (o : Option (List ℕ)) (account : List ℕ)
      → check_source keys o account ≡ none
      → o ≡ some account
  source_passed none account h = cc
  source_passed (some c) account h =
      ap some (text_eq-eq c account (test_holds (text_eq c account) forbidden h))

  -- What a transaction that may be sent satisfies.
  pub record IsOwn (now : ℕ) (wallet : List ℕ) (expected : Option ℕ) (dto : BuyPolicyDto)
      (tx : Transaction) : Type 0 where
    pub in_time : (0 < tx.max_time) × (now ≤ tx.max_time)
    pub account : List ℕ
    pub authenticated : validate_account_address keys wallet ≡ some account
    pub own_request : validate_account_address keys dto.wallet_address ≡ some account
    pub own_source : (s : List ℕ) × (tx.source ≡ some s) × IsFrom account (some s)
    pub own_operations : All (IsFrom account) (sources tx.operations)
    pub purchase : Begins expected dto tx.operations

  sources_passed :
      (os : List (Option (List ℕ))) (account : List ℕ)
      → check_sources keys os account ≡ none
      → All (IsFrom account) os
  unfolding check_sources
  sources_passed [] account h = tt
  sources_passed (none ∷ os) account h = (tt, sources_passed os account h)
  sources_passed (some s ∷ os) account h =
      let (e, rest) = both_pass (check_source keys (validate_account_address keys s) account) _ h in
      (source_passed (validate_account_address keys s) account e, sources_passed os account rest)

  envelope_passed :
      (o source : Option (List ℕ)) (os : List (Option (List ℕ)))
      → check_envelope keys o source os ≡ none
      → (account : List ℕ) × (o ≡ some account)
        × ((s : List ℕ) × (source ≡ some s) × IsFrom account (some s))
        × All (IsFrom account) os
  unfolding check_envelope
  envelope_passed none source os h = cc
  envelope_passed (some account) none os h = cc
  envelope_passed (some account) (some s) os h =
      let (e, rest) = both_pass (check_source keys (validate_account_address keys s) account) _ h in
      (
        account,
        refl,
        (s, refl, source_passed (validate_account_address keys s) account e),
        sources_passed os account rest,
      )

  wallet_passed : (a b : Option (List ℕ)) → check_wallet keys a b ≡ none → a ≡ b
  wallet_passed none b h = cc
  wallet_passed (some a) none h = cc
  wallet_passed (some a) (some b) h =
      ap some (text_eq-eq a b (test_holds (text_eq a b) wallet_mismatch h))

  raise_none : (o : Option SourceError) → raise_source o ≡ none → o ≡ none
  raise_none none h = refl
  raise_none (some e) h = cc

  check_transaction-IsOwn :
      (now : ℕ) (wallet : List ℕ) (expected : Option ℕ) (dto : BuyPolicyDto) (tx : Transaction)
      → check_transaction keys now wallet expected dto tx ≡ none
      → IsOwn now wallet expected dto tx
  unfolding check_transaction validate_transaction_source
  check_transaction-IsOwn now wallet expected dto tx h =
      let (time, h1) =
        both_pass (if leb tx.max_time 0 || ltb tx.max_time now then some gone else none) _ h in
      let (source, h2) =
        both_pass
          (raise_source (validate_transaction_source keys wallet tx.source (sources tx.operations)))
          _ h1 in
      let (own, first) =
        both_pass
          (check_wallet keys (validate_account_address keys dto.wallet_address)
            (validate_account_address keys wallet))
          _ h2 in
      let (late, past) =
        or_parts (leb tx.max_time 0) (ltb tx.max_time now) (test_fails _ gone time) in
      let (linked, envelope) = wallet_or_rest (is_empty (trim wallet)) _ (raise_none _ source) in
      let (account, auth, from, from_all) =
        envelope_passed (validate_account_address keys wallet) tx.source (sources tx.operations)
          envelope in
      record {
        in_time = (ground arith, ground arith);
        account = account;
        authenticated = auth;
        own_request = wallet_passed _ _ own ∙ auth;
        own_source = from;
        own_operations = from_all;
        purchase = operation_passed tx.operations expected dto first;
      }

  -- The answers after which a transaction may have been sent.
  abbrev pub is_sent : {store : Store} → Confirmed keys store → Bool
  is_sent (not_sent e) = false
  is_sent (not_confirmed t) = true
  is_sent (confirmed hash r) = true

  module _ (store : Store) (network : Network keys store) where
    unless_sent :
        (o : Option ConfirmError) (rest : Confirmed keys store)
        → is_sent (unless_refused keys store network o rest) ≡ true
        → o ≡ none
    unless_sent none rest h = refl
    unless_sent (some e) rest h = cc

    -- A transaction is only sent if its time bound has not passed, the authenticated wallet, the
    -- request's wallet, the transaction's source and the sources of its operations are one account, and
    -- its first operation calls buy_policy of the configured contract with the request's product,
    -- coverage and oracle key.
    pub sends_only-IsOwn :
        (now later : ℕ) (wallet : List ℕ) (expected : Option ℕ) (dto : BuyPolicyDto)
        (tx : Transaction) (s : store.State)
        → is_sent (confirm_and_create_policy keys store network now later wallet expected dto tx s)
          ≡ true
        → IsOwn now wallet expected dto tx
    unfolding confirm_and_create_policy
    sends_only-IsOwn now later wallet expected dto tx s h =
        check_transaction-IsOwn now wallet expected dto tx
          (unless_sent (check_transaction keys now wallet expected dto tx) _ h)
