-- ===== src/Invoke/Attempts.antt =====
-- What an invocation that returns has seen, and how often it sends.
use parashield_backend.Base.{
  ℕ, zero, suc, ◌+◌, ◌≤◌, ◌≡◌, refl, Bool, true, false, ◌&&◌, ◌==◌, List, [], ◌∷◌, length, all,
  and_parts, ap, Option, none, some, if_keeps, arith,
}
use parashield_backend.Invoke.{
  TxStatus, success, failed, not_found, Prepared, prepared, simulation_failed, preparation_threw,
  Sent, send_threw, accepted, error, try_again_later, Invoked, invoked, simulation_error,
  all_attempts_failed, invalid_contract, Rpc, polled, wait_for_transaction, Attempt, Tried, returns,
  simulation_fails, fails, after_wait, after_send, after_prepare, try_send, after_check, checked,
  attempt, after_attempt, attempts, first_attempt, invoke_contract, is_contract_address,
  is_address_unit,
}

-- A C and 55 letters or digits that the expression allows.
abbrev pub HasAddressForm : List ℕ → Type 0
HasAddressForm contract_id =
    (body : List ℕ) × (contract_id ≡ b'C' ∷ body)
    × (length body ≡ 55)
    × (all is_address_unit body ≡ true)

address_form : (id : List ℕ) → is_contract_address id ≡ true → HasAddressForm id
unfolding is_contract_address
address_form [] h = cc
address_form (c ∷ cs) h =
    let (first, units) = and_parts (c == b'C' && length cs == 55) (all is_address_unit cs) h in
    let (letter, size) = and_parts (c == b'C') (length cs == 55) first in
    let is_c : c ≡ b'C' = ground arith in (cs, ap (λ x. x ∷ cs) is_c, ground arith, units)

-- The states that a run from `s` comes to by its calls of the node.
pub data Steps (rpc : Rpc) (s : rpc.State) : rpc.State → Type 0 where
  here : Steps rpc s s
  prepares : {t : rpc.State} → Steps rpc s t → Steps rpc s (rpc.prepare t).1
  submits : {t : rpc.State} → Steps rpc s t → Steps rpc s (rpc.send t).1
  asks : {t : rpc.State} (hash : ℕ) → Steps rpc s t → Steps rpc s (rpc.get_transaction hash t).1

module _ (rpc : Rpc) (s : rpc.State) where
  -- The run asked for the hash, was answered SUCCESS, and ended there.
  pub record Seen (hash : ℕ) (end : rpc.State) : Type 0 where
    pub at : rpc.State
    pub met : Steps rpc s at
    pub answer : rpc.get_transaction hash at ≡ (some success, end)

  -- The result of a wait from a state of the run.
  abbrev Waited : ℕ → Bool × rpc.State → Type 0
  Waited hash (true, t) = Seen hash t
  Waited hash (false, t) = Steps rpc s t

  polled-Waited :
      (hash : ℕ) (at : rpc.State) (r : Option TxStatus × rpc.State) (rest : Bool × rpc.State)
      → Steps rpc s at
      → Steps rpc s r.1
      → rpc.get_transaction hash at ≡ r
      → Waited hash rest
      → Waited hash (polled rpc r.0 r.1 rest)
  polled-Waited hash at (none, t) rest m n e w = w
  polled-Waited hash at (some success, t) rest m n e w = record { at = at; met = m; answer = e }
  polled-Waited hash at (some failed, t) rest m n e w = n
  polled-Waited hash at (some not_found, t) rest m n e w = w

  wait-Waited :
      (polls hash : ℕ) (at : rpc.State)
      → Steps rpc s at
      → Waited hash (wait_for_transaction rpc polls hash at)
  unfolding wait_for_transaction
  wait-Waited zero hash at m = m
  wait-Waited (suc polls) hash at m =
      let next = (rpc.get_transaction hash at).1 in
      polled-Waited hash at (rpc.get_transaction hash at) (wait_for_transaction rpc polls hash next)
        m (asks hash m) refl (wait-Waited polls hash next (asks hash m))

  -- An attempt that returns has seen its hash succeed; an attempt sends at most once.
  abbrev IsGood : ℕ → Tried rpc → Type 0
  IsGood sends (returns hash b) = Seen hash b.network × (b.sends ≤ sends)
  IsGood sends (simulation_fails b) = b.sends ≤ sends
  IsGood sends (fails b) = Steps rpc s b.network × (b.sends ≤ sends)

  IsGood-more : (m n : ℕ) → m ≤ n → (t : Tried rpc) → IsGood m t → IsGood n t
  IsGood-more m n h (returns hash b) g = (g.0, omega (arith, g.1, h))
  IsGood-more m n h (simulation_fails b) g = omega (arith, g, h)
  IsGood-more m n h (fails b) g = (g.0, omega (arith, g.1, h))

  module _ (polls : ℕ) where
    after_wait-IsGood :
        (hash count : ℕ) (a : Attempt rpc) (r : Bool × rpc.State)
        → Waited hash r
        → a.sends ≤ count
        → IsGood count (after_wait rpc polls hash a r)
    after_wait-IsGood hash count a (true, t) w h = (w, h)
    after_wait-IsGood hash count a (false, t) w h = (w, h)

    after_send-IsGood :
        (a : Attempt rpc) (r : Sent × rpc.State)
        → Steps rpc s r.1
        → IsGood (a.sends + 1) (after_send rpc polls a r)
    unfolding after_send
    after_send-IsGood a (send_threw, t) m = (m, omega arith)
    after_send-IsGood a (error hash, t) m = (m, omega arith)
    after_send-IsGood a (try_again_later hash, t) m = (m, omega arith)
    after_send-IsGood a (accepted hash, t) m =
        after_wait-IsGood hash (a.sends + 1)
          (record { sends = a.sends + 1; last_sent_hash = some hash; network = t })
          (wait_for_transaction rpc polls hash t) (wait-Waited polls hash t m) (omega arith)

    after_prepare-IsGood :
        (a : Attempt rpc) (r : Prepared × rpc.State)
        → Steps rpc s r.1
        → IsGood (a.sends + 1) (after_prepare rpc polls a r)
    unfolding after_prepare
    after_prepare-IsGood a (prepared, t) m =
        after_send-IsGood (record a { network = t }) (rpc.send t) (submits m)
    after_prepare-IsGood a (simulation_failed, t) m = omega arith
    after_prepare-IsGood a (preparation_threw, t) m = (m, omega arith)

    try_send-IsGood :
        (a : Attempt rpc) → Steps rpc s a.network → IsGood (a.sends + 1) (try_send rpc polls a)
    unfolding try_send
    try_send-IsGood a m = after_prepare-IsGood a (rpc.prepare a.network) (prepares m)

    after_check-IsGood :
        (hash : ℕ) (a : Attempt rpc) (r : Option TxStatus × rpc.State)
        → Steps rpc s a.network
        → Steps rpc s r.1
        → rpc.get_transaction hash a.network ≡ r
        → IsGood (a.sends + 1) (after_check rpc polls hash a r)
    unfolding after_check
    after_check-IsGood hash a (none, t) m n e = try_send-IsGood (record a { network = t }) n
    after_check-IsGood hash a (some success, t) m n e =
        (record { at = a.network; met = m; answer = e }, omega arith)
    after_check-IsGood hash a (some failed, t) m n e = try_send-IsGood (record a { network = t }) n
    after_check-IsGood hash a (some not_found, t) m n e =
        try_send-IsGood (record a { network = t }) n

    checked-IsGood :
        (last : Option ℕ) (a : Attempt rpc)
        → Steps rpc s a.network
        → IsGood (a.sends + 1) (checked rpc polls last a)
    unfolding checked
    checked-IsGood none a m = try_send-IsGood a m
    checked-IsGood (some hash) a m =
        after_check-IsGood hash a (rpc.get_transaction hash a.network) m (asks hash m) refl

    -- The result of the loop, which does not refuse the address.
    abbrev IsHonest : ℕ → Invoked × Attempt rpc → Type 0
    IsHonest sends (invoked hash, a) = Seen hash a.network × (a.sends ≤ sends)
    IsHonest sends (simulation_error, a) = a.sends ≤ sends
    IsHonest sends (all_attempts_failed, a) = a.sends ≤ sends
    IsHonest sends (invalid_contract, a) = ⊥

    IsHonest-more : (m n : ℕ) → m ≤ n → (r : Invoked × Attempt rpc) → IsHonest m r → IsHonest n r
    IsHonest-more m n h (invoked hash, a) g = (g.0, omega (arith, g.1, h))
    IsHonest-more m n h (simulation_error, a) g = omega (arith, g, h)
    IsHonest-more m n h (all_attempts_failed, a) g = omega (arith, g, h)
    IsHonest-more m n h (invalid_contract, a) g = g

    after_attempt-IsHonest :
        (left count : ℕ) (t : Tried rpc) (next : Attempt rpc → Invoked × Attempt rpc)
        → IsGood (count + 1) t
        → ((a : Attempt rpc)
            → Steps rpc s a.network
            → a.sends ≤ count + 1
            → IsHonest (count + suc left) (next a))
        → IsHonest (count + suc left) (after_attempt rpc polls t next)
    after_attempt-IsHonest left count (returns hash a) next g k = (g.0, omega (arith, g.1))
    after_attempt-IsHonest left count (simulation_fails a) next g k = omega (arith, g)
    after_attempt-IsHonest left count (fails a) next g k = k a g.0 g.1

    attempts-IsHonest :
        (left count : ℕ) (a : Attempt rpc)
        → Steps rpc s a.network
        → a.sends ≤ count
        → IsHonest (count + left) (attempts rpc polls left a)
    unfolding attempts attempt
    attempts-IsHonest zero count a m h = omega (arith, h)
    attempts-IsHonest (suc left) count a m h =
        after_attempt-IsHonest left count (attempt rpc polls a) (attempts rpc polls left)
          (IsGood-more (a.sends + 1) (count + 1) (omega (arith, h)) (attempt rpc polls a)
            (checked-IsGood a.last_sent_hash a m))
          (λ b n g.
            IsHonest-more (count + 1 + left) (count + suc left) (omega arith)
              (attempts rpc polls left b) (attempts-IsHonest left (count + 1) b n g))

    -- The result of an invocation of an address.
    abbrev pub IsSound : List ℕ → Invoked × Attempt rpc → Type 0
    IsSound contract_id (invoked hash, a) =
        HasAddressForm contract_id × Seen hash a.network × (a.sends ≤ 3)
    IsSound contract_id (simulation_error, a) = HasAddressForm contract_id × (a.sends ≤ 3)
    IsSound contract_id (all_attempts_failed, a) = HasAddressForm contract_id × (a.sends ≤ 3)
    IsSound contract_id (invalid_contract, a) =
        (is_contract_address contract_id ≡ false) × (a.sends ≡ 0) × (a.network ≡ s)

    IsHonest-IsSound :
        (contract_id : List ℕ) (r : Invoked × Attempt rpc)
        → HasAddressForm contract_id
        → IsHonest 3 r
        → IsSound contract_id r
    IsHonest-IsSound contract_id (invoked hash, a) form g = (form, g.0, g.1)
    IsHonest-IsSound contract_id (simulation_error, a) form g = (form, g)
    IsHonest-IsSound contract_id (all_attempts_failed, a) form g = (form, g)
    IsHonest-IsSound contract_id (invalid_contract, a) form g = absurd g

    -- An invocation that is not refused has an address of a C and 55 letters or digits of the
    -- expression, and sends at most three times. It returns only a hash for which the node has
    -- answered SUCCESS at a state that the run came to, as the run's last answer. One that is refused
    -- has an address of another form, does not send, and leaves the network as it was.
    pub invocation-IsSound :
        (contract_id : List ℕ) → IsSound contract_id (invoke_contract rpc polls contract_id s)
    unfolding invoke_contract
    invocation-IsSound contract_id =
        if_keeps (IsSound contract_id) (is_contract_address contract_id)
          (λ h.
            IsHonest-IsSound contract_id (attempts rpc polls 3 (first_attempt rpc polls s))
              (address_form contract_id h)
              (attempts-IsHonest 3 0 (first_attempt rpc polls s) here (omega arith)))
          (λ h. (h, refl, refl))
