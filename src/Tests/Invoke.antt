-- ===== src/Tests/Invoke.antt =====
-- Witnesses for Invoke: a node whose first answers are exceptions.
use parashield_backend.Base.{ℕ, zero, suc, ◌+◌, ◌≡◌, refl, Option, none, some, List, ◌∷◌, replicate}
use parashield_backend.Invoke.{
  success, prepared, accepted, Rpc, TxStatus, invoke_contract, invalid_contract, first_attempt,
}
use parashield_backend.Invoke.Attempts.{IsSound, invocation-IsSound}
use parashield_backend.Invoke.Address.{base32_address_refused}

-- How many of the next questions are not answered, and the sends so far.
abbrev State : Type 0
State = ℕ × ℕ

abbrev ask : ℕ → ℕ → Option TxStatus × State
ask zero sends = (some success, (0, sends))
ask (suc failures) sends = (none, (failures, sends))

abbrev node : Rpc
node = record {
  State = State;
  prepare = λ s. (prepared, s);
  send = λ s. (accepted s.1, (s.0, s.1 + 1));
  get_transaction = λ hash s. ask s.0 s.1;
}

abbrev address : List ℕ
address = b'C' ∷ replicate 55 b'A'

abbrev base32_address : List ℕ
base32_address = b'C' ∷ b'I' ∷ replicate 54 b'A'

invocation-IsSound_example : IsSound node (2, 0) 30 address (invoke_contract node 30 address (2, 0))
invocation-IsSound_example = invocation-IsSound node (2, 0) 30 address

base32_address_refused_example :
    invoke_contract node 30 base32_address (0, 0) ≡ (invalid_contract, first_attempt node 30 (0, 0))
base32_address_refused_example = base32_address_refused node 30 base32_address (0, 0) refl
