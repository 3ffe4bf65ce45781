-- ===== src/Policy/Confirm/Account.antt =====
-- src/stellar/stellar.service.ts: `validateAccountAddress` and `validateTransactionSource`, for a
-- transaction that is no fee bump. The tests of StrKey are a parameter.
use parashield_backend.Base.{
  ℕ, ◌-◌, Bool, true, false, ◌&&◌, ◌||◌, Option, none, some, List, [], ◌∷◌, map, leb, ◌==◌, ◌≡◌,
  refl, ap, ◌∙◌, and_parts, ==_iff, if◌then◌else◌,
}
use parashield_backend.Decimal.{trim, is_empty}

-- `===` on texts
abbrev pub text_eq : List ℕ → List ℕ → Bool
text_eq [] [] = true
text_eq [] (b ∷ ys) = false
text_eq (a ∷ xs) [] = false
text_eq (a ∷ xs) (b ∷ ys) = (a == b) && text_eq xs ys

pub text_eq-eq : (xs ys : List ℕ) → text_eq xs ys ≡ true → xs ≡ ys
text_eq-eq [] [] h = refl
text_eq-eq [] (b ∷ ys) h = cc
text_eq-eq (a ∷ xs) [] h = cc
text_eq-eq (a ∷ xs) (b ∷ ys) h =
    let (p, q) = and_parts (a == b) (text_eq xs ys) h in
    ap (λ v. v ∷ xs) ((==_iff a b).0 p) ∙ ap (λ v. b ∷ v) (text_eq-eq xs ys q)

-- `StrKey.isValidMed25519PublicKey` and `isValidEd25519PublicKey`
pub record Keys : Type 0 where
  pub is_muxed : List ℕ → Bool
  pub is_valid : List ℕ → Bool

-- `toUpperCase` on the letters of ASCII
abbrev pub upper : ℕ → ℕ
upper c = if leb b'a' c && leb c b'z' then c - 32 else c

abbrev pub starts_with_m : List ℕ → Bool
starts_with_m [] = false
starts_with_m (c ∷ cs) = c == b'M'

-- A 400 and a 403.
pub data SourceError : Type 0 where
  malformed : SourceError
  forbidden : SourceError

-- The first exception of two checks, one after the other.
abbrev pub then_check {ℓ} : {E : Type ℓ} → Option E → Option E → Option E
then_check (some e) rest = some e
then_check none rest = rest

module _ (keys : Keys) where
  -- `none` is a BadRequestException.
  unfoldable pub validate_account_address : List ℕ → Option (List ℕ)
  unfolding trim
  validate_account_address address =
      let trimmed = trim address in
      let canonical = map upper trimmed in
      if is_empty trimmed || starts_with_m trimmed || keys.is_muxed trimmed
      then none
      else if keys.is_valid canonical
      then some canonical
      else none

  -- A source against the expected account.
  abbrev pub check_source : Option (List ℕ) → List ℕ → Option SourceError
  check_source none expected = some malformed
  check_source (some canonical) expected =
      if text_eq canonical expected then none else some forbidden

  -- The sources of the operations that have one.
  unfoldable pub check_sources : List (Option (List ℕ)) → List ℕ → Option SourceError
  unfolding validate_account_address
  check_sources [] expected = none
  check_sources (none ∷ sources) expected = check_sources sources expected
  check_sources (some source ∷ sources) expected =
      let rest = check_sources sources expected in
      then_check (check_source (validate_account_address source) expected) rest

  unfoldable pub check_envelope :
      Option (List ℕ) → Option (List ℕ) → List (Option (List ℕ)) → Option SourceError
  unfolding validate_account_address check_sources
  check_envelope none source sources = some malformed
  check_envelope (some expected) none sources = some malformed
  check_envelope (some expected) (some source) sources =
      then_check (check_source (validate_account_address source) expected)
        (check_sources sources expected)

  unfoldable pub validate_transaction_source :
      List ℕ → Option (List ℕ) → List (Option (List ℕ)) → Option SourceError
  unfolding trim validate_account_address check_envelope
  validate_transaction_source wallet source sources =
      if is_empty (trim wallet)
      then some forbidden
      else check_envelope (validate_account_address wallet) source sources
