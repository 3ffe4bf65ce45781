-- ===== src/Claims/Submit/Guards.antt =====
-- What `submitClaim` of src/claims/claims.service.ts has checked once it calls the contract.
use parashield_backend.Base.{
  ℕ, ◌≤◌, ◌≡◌, refl, sym, ◌∙◌, inl, inr, true, false, arith, Option, none, some, any, ltb, ◌==◌,
  ==_iff, and_parts, Bool-cases, Option-cases,
}
use parashield_backend.Policy.Status.{active, status_eq, eq_active}
use parashield_backend.Claims.Rows.{Policy, Claim, Product}
use parashield_backend.Claims.Database.{Database}
use parashield_backend.Claims.Transaction.{commit, rollback}
use parashield_backend.Claims.Submit.{
  SubmitError, policy_not_owned, policy_not_active, policy_expired, already_exists,
  concurrent_modification, over_coverage, check_policy, is_open_or_paid, submitted_claim,
  create_pending, is_current, insert_pending,
}

-- The policy and its product, as the checks leave them.
pub record Checked (claimant now : ℕ) (policy : Policy) (o : Option Product) : Type 0 where
  pub owned : policy.policyholder ≡ claimant
  pub running : policy.status ≡ active
  pub in_time : now ≤ policy.end_time
  pub product : Product
  pub known : o ≡ some product
  pub within : policy.coverage_xlm ≤ product.coverage_max

within_limit :
    (policy : Policy) (o : Option Product)
    → over_coverage policy o ≡ none
    → (p : Product) × (o ≡ some p) × (policy.coverage_xlm ≤ p.coverage_max)
within_limit policy none h = cc
within_limit policy (some p) h = elim (Bool-cases (ltb p.coverage_max policy.coverage_xlm)) [
  | inl e ↦ let v : over_coverage policy (some p) ≡ some SubmitError.over_limit = rw e refl in cc
  | inr e ↦ (p, refl, ground arith)
]

pub check_policy-Checked :
    (claimant now : ℕ) (policy : Policy) (o : Option Product)
    → check_policy claimant now policy o ≡ none
    → Checked claimant now policy o
unfolding check_policy
check_policy-Checked claimant now policy o h = elim (Bool-cases (policy.policyholder == claimant)) [
  | inr e ↦
      let v : check_policy claimant now policy o ≡ some policy_not_owned =
        rw (e, check_policy) refl in
      cc
  | inl own ↦ elim (Bool-cases (status_eq policy.status active)) [
    | inr e ↦
        let v : check_policy claimant now policy o ≡ some policy_not_active =
          rw (own, check_policy, e) refl in
        cc
    | inl run ↦ elim (Bool-cases (ltb policy.end_time now)) [
      | inl e ↦
          let v : check_policy claimant now policy o ≡ some policy_expired =
            rw (own, check_policy, run, e) refl in
          cc
      | inr due ↦
          let v : check_policy claimant now policy o ≡ over_coverage policy o =
            rw (own, check_policy, run, due) refl in
          let (p, known, within) = within_limit policy o (sym v ∙ h) in
          record {
            owned = (==_iff policy.policyholder claimant).0 own;
            running = eq_active policy.status run;
            in_time = ground arith;
            product = p;
            known = known;
            within = within;
          }
    ]
  ]
]

module _ (db : Database) where
  open db use {State, find_policy, claims_of, fresh_id, create_claim}

  current_row :
      (policy : Policy) (o : Option Policy)
      → is_current db policy o ≡ true
      → (p : Policy) × (o ≡ some p) × (p.status ≡ active) × (p.version ≡ policy.version)
  current_row policy none h = cc
  current_row policy (some p) h =
      let (run, same) = and_parts (status_eq p.status active) (p.version == policy.version) h in
      (p, refl, eq_active p.status run, (==_iff p.version policy.version).0 same)

  create_inversion :
      (claimant id : ℕ) (policy : Policy) (s t : State) (c : Claim)
      → create_pending db claimant id policy s ≡ commit c t
      → (c ≡ submitted_claim (fresh_id s) id claimant policy) × (create_claim c s ≡ some t)
  unfolding create_pending
  create_inversion claimant id policy s t c h =
      elim (Option-cases (create_claim (submitted_claim (fresh_id s) id claimant policy) s)) [
        | inl e ↦
            let v : create_pending db claimant id policy s ≡ rollback already_exists =
              rw (e, create_pending) refl in
            cc
        | inr (u, e) ↦
            let v : create_pending db claimant id policy s
                ≡ commit (submitted_claim (fresh_id s) id claimant policy) u =
              rw (e, create_pending) refl in
            let same : c ≡ submitted_claim (fresh_id s) id claimant policy = cc in
            let state : u ≡ t = cc in (same, rw same (rw (← state) e))
      ]

  -- A claim is inserted only for a policy that is ACTIVE at the version that was read and that has no
  -- claim that is PAID, PROCESSING or PENDING; it is PENDING, of the claimant, with the coverage of
  -- the policy that was read.
  pub insert_needs :
      (claimant id : ℕ) (policy : Policy) (s t : State) (c : Claim)
      → insert_pending db claimant id policy s ≡ commit c t
      → ((p : Policy) × (find_policy id s ≡ some p)
          × (p.status ≡ active)
          × (p.version ≡ policy.version))
        × (any is_open_or_paid (claims_of id s) ≡ false)
        × (c ≡ submitted_claim (fresh_id s) id claimant policy)
        × (create_claim c s ≡ some t)
  unfolding insert_pending
  insert_needs claimant id policy s t c h =
      elim (Bool-cases (is_current db policy (find_policy id s))) [
        | inr e ↦
            let v : insert_pending db claimant id policy s ≡ rollback concurrent_modification =
              rw (e, insert_pending) refl in
            cc
        | inl current ↦ elim (Bool-cases (any is_open_or_paid (claims_of id s))) [
          | inl e ↦
              let v : insert_pending db claimant id policy s ≡ rollback already_exists =
                rw (current, insert_pending, e) refl in
              cc
          | inr free ↦
              let v : insert_pending db claimant id policy s
                  ≡ create_pending db claimant id policy s =
                rw (current, insert_pending, free) refl in
              let (made, created) = create_inversion claimant id policy s t c (sym v ∙ h) in
              (current_row policy (find_policy id s) current, free, made, created)
        ]
      ]
