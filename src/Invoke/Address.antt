-- ===== src/Invoke/Address.antt =====
-- The form of a contract's address.
use parashield_backend.Base.{
  ℕ, ◌≡◌, refl, Bool, true, false, ◌||◌, List, [], ◌∷◌, all, any, ◌==◌, arith,
}
use parashield_backend.Invoke.{
  is_address_unit, is_contract_address, Rpc, invalid_contract, first_attempt, invoke_contract,
}

-- The letters of base 32 that the expression leaves out.
abbrev pub is_i_or_o : ℕ → Bool
is_i_or_o c = c == b'I' || c == b'O'

left_out : (cs : List ℕ) → any is_i_or_o cs ≡ true → all is_address_unit cs ≡ false
left_out [] h = cc
left_out (c ∷ cs) h = ground (arith, left_out cs)

refused : (cs : List ℕ) → any is_i_or_o cs ≡ true → is_contract_address cs ≡ false
unfolding is_contract_address
refused [] h = cc
refused (c ∷ cs) h = ground (arith, left_out cs)

-- An invocation of a contract whose address has an I or an O, letters of the base-32 alphabet that
-- Stellar's addresses are written in, is refused and sends nothing.
pub base32_address_refused :
    (rpc : Rpc) (polls : ℕ) (contract_id : List ℕ) (s : rpc.State)
    → any is_i_or_o contract_id ≡ true
    → invoke_contract rpc polls contract_id s ≡ (invalid_contract, first_attempt rpc polls s)
unfolding invoke_contract
base32_address_refused rpc polls contract_id s h = rw (refused contract_id h) refl
