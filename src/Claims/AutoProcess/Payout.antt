-- ===== src/Claims/AutoProcess/Payout.antt =====
-- When `autoProcess` of src/claims/claims.service.ts pays, and when it calls the contract.
use Prim.{absurd}
use mathlib.Core.Path.{subst}
use parashield_backend.Base.{
  ℕ, ◌≤◌, ◌≡◌, ◌≢◌, refl, sym, ap, ◌∙◌, ◌⊎◌, inl, inr, true, List, [], ◌∷◌, none, some,
  Option-cases,
}
use parashield_backend.Policy.Status.{active}
use parashield_backend.Claims.Rows.{Policy, Claim}
use parashield_backend.Claims.Database.{Database}
use parashield_backend.Claims.Transaction.{commit, ok, financial_transaction}
use parashield_backend.Claims.Transaction.Attempts.{Atomic, transaction-Atomic}
use parashield_backend.Claims.AutoProcess.{
  reserved, returned, Surroundings, Run, read_snapshot, reserve, process_policy, auto_process,
  quiet,
}
use parashield_backend.Claims.AutoProcess.Evaluate.{
  ClaimResult, paid, policy_not_active, early_return, is_transaction_hash,
}
use parashield_backend.Claims.AutoProcess.Verdicts.{
  Called, Triggered, early_return-none, early_return_not_paid, evaluate-Triggered, evaluate_answer,
}
use parashield_backend.Claims.AutoProcess.Settling.{proceed_calls, proceed_paid}

module _ (db : Database) (id : ℕ) (env : Surroundings db.State) (s : db.State) where
  open db use {State, find_policy, latest_reading}

  -- A call that goes past its early returns, with the policy that its snapshot holds.
  record Proceeds : Type 0 where
    policy : Policy
    found : find_policy id s ≡ some policy
    passed : early_return env.now env.later policy ≡ none
    rest :
        auto_process db id env s
        ≡ process_policy db id policy (latest_reading policy.oracle_key s) env s

  auto_process-cases :
      ((r : ClaimResult) × (r ≢ paid) × (auto_process db id env s ≡ quiet db (returned r) s))
      ⊎ Proceeds
  unfolding auto_process read_snapshot
  auto_process-cases = elim (Option-cases (find_policy id s)) [
    | inl e ↦ inl (policy_not_active, λ q. cc, rw (e, auto_process) refl)
    | inr (p, e) ↦ elim (Option-cases (early_return env.now env.later p)) [
      | inl none_yet ↦ inr (record {
        policy = p;
        found = e;
        passed = none_yet;
        rest = rw (e, auto_process, none_yet) refl;
      })
      | inr (r, early) ↦ inl (
        r,
        λ q. early_return_not_paid env.now env.later p (early ∙ ap some q),
        rw (e, auto_process, early) refl,
      )
    ]
  ]

  reserved_by :
      (p : Policy) (c : Claim) (before : State)
      → (financial_transaction env.reserve_aborts (reserve db id p) before).0 ≡ ok (reserved c)
      → (t : State) × (reserve db id p before ≡ commit (reserved c) t)
  reserved_by p c before e =
      let a = transaction-Atomic env.reserve_aborts (reserve db id p) before in
      (
        (financial_transaction env.reserve_aborts (reserve db id p) before).1,
        subst
            (λ r.
              Atomic (reserve db id p) before r
                (financial_transaction env.reserve_aborts (reserve db id p) before).1)
            e a,
      )

  -- A run calls the contract at most once, for its policy. It has then read the policy as ACTIVE
  -- with the end of its term between its two clock readings, reserved it on the state that it met, and
  -- evaluated the trigger as met, with a well-formed contract id.
  pub calls_once :
      (auto_process db id env s).calls ≢ []
      → ((auto_process db id env s).calls ≡ id ∷ [])
        × ((p : Policy) × (find_policy id s ≡ some p)
            × (p.status ≡ active)
            × (env.now ≤ p.end_time)
            × (p.end_time ≤ env.later)
            × ((c : Claim) × (t : State) × (reserve db id p (env.before_reserve s)
                  ≡ commit (reserved c) t))
            × Triggered
                (latest_reading p.oracle_key s)
                (env.product_by_id p.product_id)
                env.contract_id)
  unfolding process_policy
  calls_once n = elim auto_process-cases [
    | inl (r, other, e) ↦ absurd (n (ap Run.calls e))
    | inr q ↦
        let (c, done, called, one) =
          proceed_calls db
            (financial_transaction env.reserve_aborts (reserve db id q.policy)
              (env.before_reserve s)).0
            id q.policy (latest_reading q.policy.oracle_key s) env
            (financial_transaction env.reserve_aborts (reserve db id q.policy)
              (env.before_reserve s)).1
            (λ z. n (ap Run.calls q.rest ∙ z)) in
        let (t, made) = reserved_by q.policy c (env.before_reserve s) done in
        let (status, due, ripe) = early_return-none env.now env.later q.policy q.passed in
        (
          ap Run.calls q.rest ∙ one,
          (
            q.policy,
            q.found,
            status,
            due,
            ripe,
            (c, t, made),
            evaluate-Triggered (latest_reading q.policy.oracle_key s)
                (env.product_by_id q.policy.product_id) env.contract_id env.answer called,
          ),
        )
  ]

  -- A run that returns 'Paid' has a transaction hash of 64 hexadecimal digits as the contract's
  -- answer, and read the policy as ACTIVE with the end of its term between its two clock readings,
  -- reserved it on the state that it met, and evaluated the trigger as met.
  pub pays_only :
      (auto_process db id env s).ending ≡ returned paid
      → (p : Policy) × (find_policy id s ≡ some p)
        × (p.status ≡ active)
        × (env.now ≤ p.end_time)
        × (p.end_time ≤ env.later)
        × ((c : Claim) × (t : State) × (reserve db id p (env.before_reserve s)
              ≡ commit (reserved c) t))
        × Triggered (latest_reading p.oracle_key s) (env.product_by_id p.product_id) env.contract_id
        × ((h : List ℕ) × (env.answer ≡ some h) × (is_transaction_hash h ≡ true))
  unfolding process_policy
  pays_only ends = elim auto_process-cases [
    | inl (r, other, e) ↦
        absurd (other (let q : returned r ≡ returned paid = sym (ap Run.ending e) ∙ ends in cc))
    | inr q ↦
        let (c, h, done, confirmed) =
          proceed_paid db
            (financial_transaction env.reserve_aborts (reserve db id q.policy)
              (env.before_reserve s)).0
            id q.policy (latest_reading q.policy.oracle_key s) env
            (financial_transaction env.reserve_aborts (reserve db id q.policy)
              (env.before_reserve s)).1
            (sym (ap Run.ending q.rest) ∙ ends) in
        let (t, made) = reserved_by q.policy c (env.before_reserve s) done in
        let (status, due, ripe) = early_return-none env.now env.later q.policy q.passed in
        let reading = latest_reading q.policy.oracle_key s in
        let product = env.product_by_id q.policy.product_id in
        let (answered, fits) =
          evaluate_answer reading product env.contract_id h env.answer confirmed in
        (
          q.policy,
          q.found,
          status,
          due,
          ripe,
          (c, t, made),
          evaluate-Triggered reading product env.contract_id env.answer
              (subst Called (sym confirmed) tt),
          (h, answered, fits),
        )
  ]
