-- ===== src/Tests/Submit.antt =====
-- Witnesses for Claims.Submit: the holder of the policy submits a claim, which the contract accepts.
use parashield_backend.Base.{
  ℕ, ◌≡◌, ◌≢◌, refl, true, false, any, none, some, List, [], ◌∷◌, ◌++◌, replicate,
}
use parashield_backend.Claims.Rows.{Policy, Claim}
use parashield_backend.Claims.Transaction.{financial_transaction}
use parashield_backend.Claims.AutoProcess.Evaluate.{is_contract_id}
use parashield_backend.Claims.Submit.{
  is_uuid, SubmitSurroundings, is_open_or_paid, submitted_claim, submit_claim,
}
use parashield_backend.Claims.Submit.Guards.{Checked}
use parashield_backend.Claims.Submit.Calls.{Inserted, submits_only}
use parashield_backend.Tests.Memory.{Tables, memory}
use parashield_backend.Tests.Claims.{policy, product, hash, tables}

abbrev claim : Claim
claim = submitted_claim 1 7 42 policy

abbrev submitted_tables : Tables
submitted_tables = record tables { claims = claim ∷ []; next_id = 2 }

abbrev uuid : List ℕ
uuid =
    replicate 8 b'a'
    ++ b'-' ∷ replicate 4 b'0'
    ++ b'-' ∷ replicate 4 b'1'
    ++ b'-' ∷ replicate 4 b'b'
    ++ b'-' ∷ replicate 12 b'F'

abbrev env : SubmitSurroundings Tables
env = record {
  policy_text = uuid;
  now = 4000;
  processed_at = 4100;
  product_by_id = λ i. some product;
  contract_id = b'C' ∷ replicate 55 b'A';
  answer = some hash;
  insert_aborts = λ n. none;
  sent_aborts = λ n. none;
  failed_aborts = λ n. none;
  before_probe = λ s. s;
  before_insert = λ s. s;
  before_sent = λ s. s;
}

runs : (submit_claim memory 42 7 env tables).calls ≡ 1 ∷ []
unfolding submit_claim is_contract_id financial_transaction
runs = refl

nonempty : (xs : List ℕ) → xs ≡ 1 ∷ [] → xs ≢ []
nonempty xs e n = cc

submits_only_example :
    (is_uuid uuid ≡ true)
    × ((p : Policy) × (some policy ≡ some p)
        × Checked 42 4000 p (some product)
        × (any is_open_or_paid [] ≡ false)
        × (is_contract_id env.contract_id ≡ true)
        × Inserted memory 42 7 p tables (submit_claim memory 42 7 env tables).calls)
submits_only_example =
    submits_only memory 42 7 env tables (nonempty (submit_claim memory 42 7 env tables).calls runs)
