-- ===== src/Invoke.antt =====
-- src/stellar/stellar.service.ts: `invokeContract` with its attempts, the check of an earlier send, and
-- `waitForTransaction`. The RPC node and the network are an interface; delays take time only. The name
-- `validMemo`, which `doInvokeContract` does not declare, is taken to be undefined, as for no memo.
pub mod Attempts
pub mod Address
use parashield_backend.Base.{
  ℕ, zero, suc, ◌+◌, Bool, true, false, ◌&&◌, ◌||◌, Option, none, some, List, [], ◌∷◌, length, all,
  leb, ◌==◌, if◌then◌else◌,
}

-- The statuses of `getTransaction`.
pub data TxStatus : Type 0 where
  success : TxStatus
  failed : TxStatus
  not_found : TxStatus

-- What comes before a send: the account, the simulation, the assembled transaction.
pub data Prepared : Type 0 where
  prepared : Prepared
  -- SimulationFailedError
  simulation_failed : Prepared
  -- any other exception
  preparation_threw : Prepared

-- The answer of `sendTransaction`, or its exception.
pub data Sent : Type 0 where
  send_threw : Sent
  -- PENDING or DUPLICATE
  accepted : ℕ → Sent
  -- ERROR, with the hash where there is one
  error : Option ℕ → Sent
  try_again_later : Option ℕ → Sent

-- How an invocation ends: the hash, the error of the simulation, or of the last attempt.
pub data Invoked : Type 0 where
  invoked : ℕ → Invoked
  simulation_error : Invoked
  all_attempts_failed : Invoked
  invalid_contract : Invoked

pub record Rpc : Type 1 where
  pub State : Type 0
  pub prepare : State → Prepared × State
  pub send : State → Sent × State
  -- `getTransaction` with its timeout; `none` is an exception
  pub get_transaction : ℕ → State → Option TxStatus × State

-- `[A-BA-HJ-NP-Z0-9]`
abbrev pub is_address_unit : ℕ → Bool
is_address_unit c =
    leb b'A' c && leb c b'B'
    || leb b'A' c && leb c b'H'
    || leb b'J' c && leb c b'N'
    || leb b'P' c && leb c b'Z'
    || leb b'0' c && leb c b'9'

-- `^C[A-BA-HJ-NP-Z0-9]{55}$`
unfoldable pub is_contract_address : List ℕ → Bool
is_contract_address [] = false
is_contract_address (c ∷ cs) = c == b'C' && length cs == 55 && all is_address_unit cs

module _ (rpc : Rpc) where
  open rpc use {State, prepare, send, get_transaction}

  abbrev pub polled : Option TxStatus → State → Bool × State → Bool × State
  polled none t rest = rest
  polled (some success) t rest = (true, t)
  polled (some failed) t rest = (false, t)
  polled (some not_found) t rest = rest

  -- `waitForTransaction`, for the polls that its 60 s leave; whether it returns, and not throws.
  unfoldable pub wait_for_transaction : ℕ → ℕ → State → Bool × State
  wait_for_transaction zero hash s = (false, s)
  wait_for_transaction (suc polls) hash s =
      let (answer, t) = get_transaction hash s in
      polled answer t (wait_for_transaction polls hash t)

  -- The service's view of an invocation: the sends so far, as many as the network was asked for, and
  -- the last hash.
  pub record Attempt : Type 0 where
    pub sends : ℕ
    pub last_sent_hash : Option ℕ
    pub network : State

  -- How an attempt ends: it returns the hash, ends with the simulation's error, or fails.
  pub data Tried : Type 0 where
    returns : ℕ → Attempt → Tried
    simulation_fails : Attempt → Tried
    fails : Attempt → Tried

  abbrev pub or_last : Option ℕ → Option ℕ → Option ℕ
  or_last none last = last
  or_last (some hash) last = some hash

  module _ (polls : ℕ) where
    abbrev pub after_wait : ℕ → Attempt → Bool × State → Tried
    after_wait hash a (true, t) = returns hash (record a { network = t })
    after_wait hash a (false, t) = fails (record a { network = t })

    -- From the answer of `sendTransaction`
    unfoldable pub after_send : Attempt → Sent × State → Tried
    unfolding wait_for_transaction
    after_send a (send_threw, t) = fails (record a { sends = a.sends + 1; network = t })
    after_send a (error hash, t) = fails (record {
      sends = a.sends + 1;
      last_sent_hash = or_last hash a.last_sent_hash;
      network = t;
    })
    after_send a (try_again_later hash, t) = fails (record {
      sends = a.sends + 1;
      last_sent_hash = or_last hash a.last_sent_hash;
      network = t;
    })
    after_send a (accepted hash, t) =
        let b : Attempt = record { sends = a.sends + 1; last_sent_hash = some hash; network = t } in
        after_wait hash b (wait_for_transaction polls hash t)

    unfoldable pub after_prepare : Attempt → Prepared × State → Tried
    unfolding after_send
    after_prepare a (prepared, t) = after_send (record a { network = t }) (send t)
    after_prepare a (simulation_failed, t) = simulation_fails (record a { network = t })
    after_prepare a (preparation_threw, t) = fails (record a { network = t })

    -- The part of an attempt behind the check of the earlier send
    unfoldable pub try_send : Attempt → Tried
    unfolding after_prepare
    try_send a = after_prepare a (prepare a.network)

    unfoldable pub after_check : ℕ → Attempt → Option TxStatus × State → Tried
    unfolding try_send
    after_check hash a (some success, t) = returns hash (record a { network = t })
    after_check hash a (some failed, t) = try_send (record a { network = t })
    after_check hash a (some not_found, t) = try_send (record a { network = t })
    after_check hash a (none, t) = try_send (record a { network = t })

    unfoldable pub checked : Option ℕ → Attempt → Tried
    unfolding after_check try_send
    checked none a = try_send a
    checked (some hash) a = after_check hash a (get_transaction hash a.network)

    -- The body of the loop; the first attempt has no hash to check.
    unfoldable pub attempt : Attempt → Tried
    unfolding checked
    attempt a = checked a.last_sent_hash a

    -- The loop of `doInvokeContract`, with the attempts that are left.
    abbrev pub after_attempt : Tried → (Attempt → Invoked × Attempt) → Invoked × Attempt
    after_attempt (returns hash a) next = (invoked hash, a)
    after_attempt (simulation_fails a) next = (simulation_error, a)
    after_attempt (fails a) next = next a

    unfoldable pub attempts : ℕ → Attempt → Invoked × Attempt
    unfolding attempt
    attempts zero a = (all_attempts_failed, a)
    attempts (suc left) a = after_attempt (attempt a) (attempts left)

    abbrev pub max_attempts : ℕ
    max_attempts = 3

    abbrev pub first_attempt : State → Attempt
    first_attempt s = record { sends = 0; last_sent_hash = none; network = s }

    -- `invokeContract`
    unfoldable pub invoke_contract : List ℕ → State → Invoked × Attempt
    unfolding attempts is_contract_address
    invoke_contract contract_id s =
        if is_contract_address contract_id
        then attempts max_attempts (first_attempt s)
        else (invalid_contract, first_attempt s)
