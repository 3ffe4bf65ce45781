-- ===== src/Policy/Confirm.antt =====
-- src/policy/policy.service.ts, `confirmAndCreatePolicy`, with `validateTransactionSource` and
-- `simulateAssembleAndSend` of src/stellar/stellar.service.ts. What the SDK parses out of the signed XDR
-- is an argument.
mod Account
pub mod Owner
unfoldable pub use Account.*
use parashield_backend.Base.{
  ℕ, zero, suc, ◌*◌, ◌/◌, Bool, true, false, not, ◌&&◌, ◌||◌, Option, none, some, List, [], ◌∷◌,
  ltb, leb, ◌==◌, if◌then◌else◌,
}
use parashield_backend.Policy.Purchase.{
  BuyPolicyDto, Store, Purchased, create_policy, units_per_xlm,
}

-- The decoded arguments of `buy_policy`; a coverage is the number whose text it is, in units of
-- 10 ^ -7, and `none` where it is no number's text.
pub data Arguments : Type 0 where
  too_few : Arguments
  undecodable : Arguments
  decoded : ℕ → Option ℕ → List ℕ → Arguments

-- What `invokeContract()` gives; `contract` is `none` where the address cannot be read.
pub record Invocation : Type 0 where
  pub contract : Option ℕ
  pub is_buy_policy : Bool
  pub arguments : Arguments

pub data Operation : Type 0 where
  other_type : Operation
  -- invokeHostFunction, `none` where it does not invoke a contract
  invoke_host_function : Option Invocation → Operation

-- The parsed transaction, each operation with its source. No time bounds are `max_time` 0.
pub record Transaction : Type 0 where
  pub max_time : ℕ
  pub source : Option (List ℕ)
  pub operations : List (Option (List ℕ) × Operation)

-- The exceptions before anything is sent.
pub data ConfirmError : Type 0 where
  gone : ConfirmError
  source_refused : SourceError → ConfirmError
  wallet_mismatch : ConfirmError
  invalid_wallet : ConfirmError
  no_operation : ConfirmError
  not_an_invocation : ConfirmError
  invalid_contract : ConfirmError
  not_configured : ConfirmError
  wrong_contract : ConfirmError
  wrong_function : ConfirmError
  bad_arguments : ConfirmError

abbrev pub sources : List (Option (List ℕ) × Operation) → List (Option (List ℕ))
sources [] = []
sources (o ∷ os) = o.0 ∷ sources os

abbrev pub raise_source : Option SourceError → Option ConfirmError
raise_source none = none
raise_source (some e) = some (source_refused e)

abbrev pub check_arguments : Arguments → BuyPolicyDto → Option ConfirmError
check_arguments too_few dto = some bad_arguments
check_arguments undecodable dto = some bad_arguments
check_arguments (decoded product_id none key) dto = some bad_arguments
check_arguments (decoded product_id (some coverage) key) dto =
    if product_id == dto.product_id && coverage == dto.coverage_xlm && text_eq key dto.oracle_key
    then none
    else some bad_arguments

abbrev pub check_contract : Option ℕ → Option ℕ → Option ConfirmError
check_contract none expected = some invalid_contract
check_contract (some contract) none = some not_configured
check_contract (some contract) (some expected) =
    if contract == expected then none else some wrong_contract

abbrev pub check_invocation : Invocation → Option ℕ → BuyPolicyDto → Option ConfirmError
check_invocation i expected dto = then_check (check_contract i.contract expected) (
    then_check (if i.is_buy_policy then none else some wrong_function)
      (check_arguments i.arguments dto))

-- The first operation; `expected` is POLICY_ENGINE_CONTRACT.
unfoldable pub check_operation :
    List (Option (List ℕ) × Operation) → Option ℕ → BuyPolicyDto → Option ConfirmError
check_operation [] expected dto = some no_operation
check_operation ((source, other_type) ∷ os) expected dto = some not_an_invocation
check_operation ((source, invoke_host_function none) ∷ os) expected dto = some not_an_invocation
check_operation ((source, invoke_host_function (some i)) ∷ os) expected dto =
    check_invocation i expected dto

-- The answer of a send: an exception, or a status with the hash.
pub data SendResult : Type 0 where
  send_threw : SendResult
  error_status : SendResult
  try_again_later : ℕ → SendResult
  -- PENDING or DUPLICATE
  pending : ℕ → SendResult

abbrev pub max_send_attempts : ℕ
max_send_attempts = 3

module _ (keys : Keys) where
  abbrev pub check_wallet : Option (List ℕ) → Option (List ℕ) → Option ConfirmError
  check_wallet none auth = some invalid_wallet
  check_wallet (some dto) none = some invalid_wallet
  check_wallet (some dto) (some auth) = if text_eq dto auth then none else some wallet_mismatch

  -- All checks of `confirmAndCreatePolicy` before it sends, at a time in seconds.
  unfoldable pub check_transaction :
      ℕ → List ℕ → Option ℕ → BuyPolicyDto → Transaction → Option ConfirmError
  unfolding check_operation validate_transaction_source validate_account_address
  check_transaction now wallet expected dto tx =
      then_check (if leb tx.max_time 0 || ltb tx.max_time now then some gone else none) (
        then_check
          (raise_source (validate_transaction_source keys wallet tx.source (sources tx.operations)))
          (then_check
            (check_wallet (validate_account_address keys dto.wallet_address)
              (validate_account_address keys wallet))
            (check_operation tx.operations expected dto)))

  module _ (store : Store) where
    open store use {State}

    -- The network: the simulation, a send, and the wait for a hash.
    pub record Network : Type 0 where
      pub simulates : Transaction → State → Bool
      pub send : Transaction → State → SendResult × State
      pub confirms : ℕ → State → Bool × State

    -- How a confirmation ends.
    pub data Confirmed : Type 0 where
      not_sent : ConfirmError → Confirmed
      -- the simulation or the send failed, or the transaction did not confirm
      not_confirmed : State → Confirmed
      -- the transaction is on the chain; then what `createPolicy` gives
      confirmed : ℕ → Purchased State → Confirmed

    module _ (network : Network) where
      -- The loop of `simulateAssembleAndSend`, with the sends that are left after this one.
      unfoldable pub send_from : ℕ → Transaction → State → SendResult × State
      send_from zero tx s = network.send tx s
      send_from (suc left) tx s =
          let (answer, t) = network.send tx s in
          elim answer [
            | try_again_later hash ↦ send_from left tx t
            | send_threw ↦ (send_threw, t)
            | error_status ↦ (error_status, t)
            | pending hash ↦ (pending hash, t)
          ]

      -- An ERROR or a last TRY_AGAIN_LATER is an exception. (The source check that is repeated before the
      -- simulation has passed.)
      abbrev pub sent : SendResult × State → Option ℕ × State
      sent (send_threw, t) = (none, t)
      sent (error_status, t) = (none, t)
      sent (try_again_later hash, t) = (none, t)
      sent (pending hash, t) = (some hash, t)

      unfoldable pub simulate_assemble_and_send : Transaction → State → Option ℕ × State
      unfolding send_from
      simulate_assemble_and_send tx s =
          if network.simulates tx s then sent (send_from 2 tx s) else (none, s)

      -- `chainDto`: the decoded arguments are the request's, and the coverage goes through `parseInt`.
      abbrev pub chain_dto : BuyPolicyDto → BuyPolicyDto
      chain_dto dto = record dto { coverage_xlm = dto.coverage_xlm / units_per_xlm * units_per_xlm }

      abbrev pub after_wait : ℕ → BuyPolicyDto → ℕ → Bool × State → Confirmed
      after_wait now dto hash (false, t) = not_confirmed t
      after_wait now dto hash (true, t) =
          confirmed hash (create_policy store now (chain_dto dto) hash t)

      abbrev pub after_send : ℕ → BuyPolicyDto → Option ℕ × State → Confirmed
      after_send now dto (none, t) = not_confirmed t
      after_send now dto (some hash, t) = after_wait now dto hash (network.confirms hash t)

      abbrev pub unless_refused : Option ConfirmError → Confirmed → Confirmed
      unless_refused (some e) rest = not_sent e
      unless_refused none rest = rest

      -- `confirmAndCreatePolicy`; `later` is the time at which `createPolicy` begins.
      unfoldable pub confirm_and_create_policy :
          ℕ → ℕ → List ℕ → Option ℕ → BuyPolicyDto → Transaction → State → Confirmed
      unfolding check_transaction simulate_assemble_and_send
      confirm_and_create_policy now later wallet expected dto tx s =
          unless_refused (check_transaction now wallet expected dto tx)
            (after_send later dto (simulate_assemble_and_send tx s))
