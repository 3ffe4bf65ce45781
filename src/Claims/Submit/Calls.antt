-- ===== src/Claims/Submit/Calls.antt =====
-- When `submitClaim` of src/claims/claims.service.ts calls the contract, and how it leaves the claim.
use Prim.{absurd}
use parashield_backend.Base.{
  ℕ, ◌≡◌, ◌≢◌, refl, ap, ◌∙◌, inl, inr, true, false, Option, none, some, List, [], ◌∷◌, any,
  Bool-cases, Option-cases,
}
use parashield_backend.Claims.Rows.{Policy, Claim}
use parashield_backend.Claims.Database.{Database}
use parashield_backend.Claims.Transaction.{
  commit, Result, ok, aborted, threw, financial_transaction,
}
use parashield_backend.Claims.Transaction.Attempts.{Atomic, transaction-Atomic}
use parashield_backend.Claims.AutoProcess.Evaluate.{is_contract_id}
use parashield_backend.Claims.Submit.{
  SubmitError, already_exists, bad_gateway, invalid_uuid, policy_not_found, is_uuid,
  SubmitSurroundings, check_policy, is_open_or_paid, thrown, SubmitRun, insert_pending, quiet,
  after_failed, failed_batch, sent_batch, submission_failed, after_sent, send, after_insert,
  insert_and_send, submit_claim,
}
use parashield_backend.Claims.Submit.Guards.{Checked, check_policy-Checked}

module _ (db : Database) where
  open db use {State, find_policy, claims_of}

  after_failed_calls :
      (r : Result Unit SubmitError) (id k : ℕ) (t : State)
      → (after_failed db r id k t).calls ≡ k ∷ []
  after_failed_calls (ok u) id k t = refl
  after_failed_calls (threw e) id k t = refl
  after_failed_calls (aborted e) id k t = refl

  failed_calls :
      (id k : ℕ) (env : SubmitSurroundings State) (s : State)
      → (submission_failed db id k env s).calls ≡ k ∷ []
  unfolding submission_failed
  failed_calls id k env s =
      after_failed_calls
        (financial_transaction {A = Unit} {E = SubmitError} env.failed_aborts
          (λ u. commit tt (failed_batch db k env.processed_at u)) s).0
        id k
        (financial_transaction {A = Unit} {E = SubmitError} env.failed_aborts
          (λ u. commit tt (failed_batch db k env.processed_at u)) s).1

  after_sent_calls :
      (r : Result Unit SubmitError) (id k : ℕ) (env : SubmitSurroundings State) (t : State)
      → (after_sent db r id k env t).calls ≡ k ∷ []
  after_sent_calls (ok u) id k env t = refl
  after_sent_calls (threw e) id k env t = failed_calls id k env t
  after_sent_calls (aborted e) id k env t = failed_calls id k env t

  send_calls :
      (id k : ℕ) (answer : Option (List ℕ)) (env : SubmitSurroundings State) (s : State)
      → (send db id k answer env s).calls ≡ k ∷ []
  unfolding send
  send_calls id k none env s = failed_calls id k env s
  send_calls id k (some h) env s =
      after_sent_calls
        (financial_transaction {A = Unit} {E = SubmitError} env.sent_aborts
          (λ u. commit tt (sent_batch db k h u)) s).0
        id k env
        (financial_transaction {A = Unit} {E = SubmitError} env.sent_aborts
          (λ u. commit tt (sent_batch db k h u)) s).1

  -- The insert that a call of the contract follows.
  abbrev pub Inserted : ℕ → ℕ → Policy → State → List ℕ → Type 0
  Inserted claimant id policy s calls =
      (c : Claim) × (t : State) × (insert_pending db claimant id policy s ≡ commit c t)
      × (calls ≡ c.id ∷ [])

  after_insert-Inserted :
      (r : Result Claim SubmitError) (claimant id : ℕ) (policy : Policy)
      (env : SubmitSurroundings State) (s t : State)
      → Atomic (insert_pending db claimant id policy) s r t
      → (after_insert db r id env t).calls ≢ []
      → Inserted claimant id policy s (after_insert db r id env t).calls
  after_insert-Inserted (ok c) claimant id policy env s t done n =
      (c, t, done, send_calls id c.id env.answer env (env.before_sent t))
  after_insert-Inserted (threw e) claimant id policy env s t done n = absurd (n refl)
  after_insert-Inserted (aborted e) claimant id policy env s t done n = absurd (n refl)

  module _ (claimant id : ℕ) (policy : Policy) (env : SubmitSurroundings State) (s : State) where
    abbrev insert_run : Result Claim SubmitError × State
    insert_run =
        financial_transaction env.insert_aborts (insert_pending db claimant id policy)
          (env.before_insert s)

    inserted :
        (insert_and_send db claimant id policy env s).calls ≢ []
        → (any is_open_or_paid (claims_of id s) ≡ false)
          × (is_contract_id env.contract_id ≡ true)
          × Inserted claimant id policy
              (env.before_insert s)
              (insert_and_send db claimant id policy env s).calls
    unfolding insert_and_send
    inserted n = elim (Bool-cases (any is_open_or_paid (claims_of id s))) [
      | inl e ↦
          let v : insert_and_send db claimant id policy env s ≡ quiet db (thrown already_exists) s =
            rw (e, insert_and_send) refl in
          absurd (n (ap SubmitRun.calls v))
      | inr free ↦ elim (Bool-cases (is_contract_id env.contract_id)) [
        | inr e ↦
            let v : insert_and_send db claimant id policy env s ≡ quiet db (thrown bad_gateway) s =
              rw (free, insert_and_send, e) refl in
            absurd (n (ap SubmitRun.calls v))
        | inl valid ↦
            let v : insert_and_send db claimant id policy env s
                ≡ after_insert db insert_run.0 id env insert_run.1 =
              rw (free, insert_and_send, valid) refl in
            let (c, t, made, one) =
              after_insert-Inserted insert_run.0 claimant id policy env (env.before_insert s)
                insert_run.1
                (transaction-Atomic env.insert_aborts (insert_pending db claimant id policy)
                  (env.before_insert s))
                (λ z. n (ap SubmitRun.calls v ∙ z)) in
            (free, valid, (c, t, made, ap SubmitRun.calls v ∙ one))
      ]
    ]

  -- The contract is called at most once, for the new claim. The id then is a UUID, the policy was read
  -- as the claimant's own, ACTIVE, not past its end and within the coverage limit of its product, no
  -- claim of it was open or paid, and the claim has been inserted on the state that the insert met.
  pub submits_only :
      (claimant id : ℕ) (env : SubmitSurroundings State) (s : State)
      → (submit_claim db claimant id env s).calls ≢ []
      → (is_uuid env.policy_text ≡ true)
        × ((policy : Policy) × (find_policy id s ≡ some policy)
            × Checked claimant env.now policy (env.product_by_id policy.product_id)
            × (any is_open_or_paid (claims_of id (env.before_probe s)) ≡ false)
            × (is_contract_id env.contract_id ≡ true)
            × Inserted claimant id policy
                (env.before_insert (env.before_probe s))
                (submit_claim db claimant id env s).calls)
  unfolding submit_claim
  submits_only claimant id env s n = elim (Bool-cases (is_uuid env.policy_text)) [
    | inr e ↦
        let v : submit_claim db claimant id env s ≡ quiet db (thrown invalid_uuid) s =
          rw (e, submit_claim) refl in
        absurd (n (ap SubmitRun.calls v))
    | inl uuid ↦ elim (Option-cases (find_policy id s)) [
      | inl e ↦
          let v : submit_claim db claimant id env s ≡ quiet db (thrown policy_not_found) s =
            rw (uuid, submit_claim, e) refl in
          absurd (n (ap SubmitRun.calls v))
      | inr (p, found) ↦
          elim (Option-cases (check_policy claimant env.now p (env.product_by_id p.product_id))) [
            | inr (err, e) ↦
                let v : submit_claim db claimant id env s ≡ quiet db (thrown err) s =
                  rw (uuid, submit_claim, found, e) refl in
                absurd (n (ap SubmitRun.calls v))
            | inl passed ↦
                let v : submit_claim db claimant id env s
                    ≡ insert_and_send db claimant id p env (env.before_probe s) =
                  rw (uuid, submit_claim, found, passed) refl in
                let (free, valid, (c, t, made, one)) =
                  inserted claimant id p env (env.before_probe s)
                    (λ z. n (ap SubmitRun.calls v ∙ z)) in
                (
                  uuid,
                  (
                    p,
                    found,
                    check_policy-Checked claimant env.now p (env.product_by_id p.product_id) passed,
                    free,
                    valid,
                    (c, t, made, ap SubmitRun.calls v ∙ one),
                  ),
                )
          ]
    ]
  ]
