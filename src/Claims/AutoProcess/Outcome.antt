-- ===== src/Claims/AutoProcess/Outcome.antt =====
-- What the last transaction of `autoProcess` (src/claims/claims.service.ts) does to the rows.
use Prim.{absurd}
use parashield_backend.Base.{
  ℕ, ◌+◌, ◌≡◌, ◌≢◌, refl, ap, ◌∙◌, inl, inr, Bool, true, false, ◌&&◌, List, [], ◌∷◌, map, some,
  Bool-cases, ◌==◌, ==_refl,
}
use parashield_backend.Policy.Status.{PolicyStatus, active, processing, claimed}
use parashield_backend.Claims.Rows
use parashield_backend.Claims.Rows.{
  Policy, Claim, ClaimStatus, claim_status_eq, AuditEntry, claim_audit, policy_audit,
}
use parashield_backend.Claims.Database.{Database, count, change_claim, is_unsettled, update_if}
use parashield_backend.Claims.AutoProcess.Effects.{
  move_to, status_and_version, close_claim, reject_claim, pay_claim, reject_batch, fail_batch,
  pay_batch, batch_of,
}
use parashield_backend.Claims.AutoProcess.Evaluate.{
  Verdict, no_reading, no_product, bad_threshold, not_triggered, not_configured, payout_failed,
  payout_confirmed,
}

-- The status that a verdict leaves a gated policy in, and the one it gives the claim.
abbrev pub final_status : Verdict → PolicyStatus
final_status (payout_confirmed h) = claimed
final_status no_reading = processing
final_status not_triggered = processing
final_status verdict = active

abbrev pub final_row : Verdict → Policy → Policy
final_row (payout_confirmed h) p = move_to claimed p
final_row no_reading p = p
final_row not_triggered p = p
final_row verdict p = move_to active p

-- The claim with the id is still PENDING or PROCESSING.
abbrev pub open_claim : ℕ → Claim → Bool
open_claim id c = c.id == id && is_unsettled c

-- A change that settles a claim and leaves it its policy.
Settles : (Claim → Claim) → Type 0
Settles f = (c : Claim) → (is_unsettled (f c) ≡ false) × ((f c).policy_id ≡ c.policy_id)

change_closes :
    (k : ℕ) (f : Claim → Claim) (c : Claim) → Settles f → open_claim k (change_claim k f c) ≡ false
unfolding Settles
change_closes k f c s = elim (Bool-cases (c.id == k)) [
  | inl e ↦ rw (e) (and_false ((f c).id == k) (is_unsettled (f c)) (s c).0)
  | inr e ↦ rw (e) (rw (e) refl)
]
  where
    and_false : (a b : Bool) → b ≡ false → (a && b) ≡ false
    and_false true b e = e
    and_false false b e = refl

count_none :
    (k : ℕ) (f : Claim → Claim) (cs : List Claim)
    → Settles f
    → count (open_claim k) (map (change_claim k f) cs) ≡ 0
count_none k f [] s = refl
count_none k f (c ∷ cs) s = rw (change_closes k f c s) (count_none k f cs s)

module _ (db : Database) where
  open db use {State, find_policy, claims_of, update_claim, update_policies, audit}

  -- An updated claim that settles is not open any more, and no policy has changed.
  update_closes :
      (i k : ℕ) (f : Claim → Claim) (s : State)
      → Settles f
      → count (open_claim k) (claims_of i (update_claim k f s)) ≡ 0
  unfolding Settles
  update_closes i k f s h =
      db.count-update_claim (open_claim k) i k f s (λ c. (h c).1) ∙ count_none k f (claims_of i s) h

  reject_policy :
      (i k : ℕ) (f : Claim → Claim) (s : State)
      → find_policy i (reject_batch db f k s) ≡ find_policy i s
  unfolding reject_batch
  reject_policy i k f s =
      db.find_policy-audit i (claim_audit k Rows.processing Rows.rejected) (update_claim k f s)
      ∙ db.find_policy-update_claim i k f s

  reject_claims :
      (i k : ℕ) (f : Claim → Claim) (s : State)
      → Settles f
      → count (open_claim k) (claims_of i (reject_batch db f k s)) ≡ 0
  unfolding reject_batch
  reject_claims i k f s h =
      rw (db.claims_of-audit i (claim_audit k Rows.processing Rows.rejected) (update_claim k f s))
        (update_closes i k f s h)

  module _ (id k : ℕ) (f : Claim → Claim) (gated : ℕ) (status : PolicyStatus) (s : State) where
    abbrev guarded : State
    guarded =
        (update_policies id (status_and_version processing gated) (move_to status)
          (update_claim k f s)).0

    guarded_row :
        find_policy id guarded
        ≡ update_if (status_and_version processing gated) (move_to status) (find_policy id s)
    guarded_row =
        db.find_policy-update_policies id id (status_and_version processing gated) (move_to status)
          (update_claim k f s)
        ∙ rw (==_refl id) (
            ap (update_if (status_and_version processing gated) (move_to status))
              (db.find_policy-update_claim id k f s))

    guarded_hit :
        (p : Policy)
        → find_policy id s ≡ some p
        → status_and_version processing gated p ≡ true
        → find_policy id guarded ≡ some (move_to status p)
    guarded_hit p e hit = guarded_row ∙ rw (e, hit) refl

    guarded_miss :
        (p : Policy)
        → find_policy id s ≡ some p
        → status_and_version processing gated p ≡ false
        → find_policy id guarded ≡ some p
    guarded_miss p e miss = guarded_row ∙ rw (e, miss) refl

    guarded_closes : (i : ℕ) → Settles f → count (open_claim k) (claims_of i guarded) ≡ 0
    guarded_closes i h =
        rw
          (db.claims_of-update_policies i id (status_and_version processing gated) (move_to status)
            (update_claim k f s))
          (update_closes i k f s h)

  -- What a settlement does to a row: the guard's hit or miss, and the claim closed.
  abbrev Lands : ℕ → ℕ → ℕ → Policy → Policy → State → Type 0
  Lands id k gated p q t =
      (status_and_version processing gated p ≡ true → find_policy id t ≡ some q)
      × (status_and_version processing gated p ≡ false → find_policy id t ≡ some p)
      × (count (open_claim k) (claims_of id t) ≡ 0)

  Lands-audit :
      (id k gated : ℕ) (p q : Policy) (e : AuditEntry) (t : State)
      → Lands id k gated p q t
      → Lands id k gated p q (audit e t)
  Lands-audit id k gated p q e t (hit, miss, closed) = (
    λ h. db.find_policy-audit id e t ∙ hit h,
    λ h. db.find_policy-audit id e t ∙ miss h,
    rw (db.claims_of-audit id e t) closed,
  )

  reject-Lands :
      (id k gated : ℕ) (f : Claim → Claim) (p : Policy) (s : State)
      → Settles f
      → find_policy id s ≡ some p
      → Lands id k gated p p (reject_batch db f k s)
  unfolding Settles
  reject-Lands id k gated f p s h e = (
    λ hit. reject_policy id k f s ∙ e,
    λ miss. reject_policy id k f s ∙ e,
    reject_claims id k f s h,
  )

  fail-Lands :
      (id k gated now : ℕ) (p : Policy) (s : State)
      → find_policy id s ≡ some p
      → Lands id k gated p (move_to active p) (fail_batch db id gated k now s)
  unfolding fail_batch Settles
  fail-Lands id k gated now p s e =
      let f = close_claim Rows.failed now in
      let t = guarded id k f gated active s in
      Lands-audit id k gated p (move_to active p) (policy_audit id processing active)
        (audit (claim_audit k Rows.processing Rows.failed) t)
        (Lands-audit id k gated p (move_to active p) (claim_audit k Rows.processing Rows.failed) t (
          guarded_hit id k f gated active s p e,
          guarded_miss id k f gated active s p e,
          guarded_closes id k f gated active s id (λ c. (refl, refl)),
        ))

  pay-Lands :
      (id k gated coverage now : ℕ) (h : List ℕ) (p : Policy) (s : State)
      → find_policy id s ≡ some p
      → Lands id k gated p (move_to claimed p) (pay_batch db id gated coverage k h now s).0
  unfolding pay_batch Settles
  pay-Lands id k gated coverage now h p s e =
      let f = pay_claim h coverage now in
      Lands-audit id k gated p (move_to claimed p) (claim_audit k Rows.processing Rows.paid)
        (guarded id k f gated claimed s)
        (
          guarded_hit id k f gated claimed s p e,
          guarded_miss id k f gated claimed s p e,
          guarded_closes id k f gated claimed s id (λ c. (refl, refl)),
        )

  -- The last transaction, of every verdict that reaches it, leaves the claim neither PENDING nor
  -- PROCESSING. A policy that is still the gated one (PROCESSING, at the gate's version) becomes
  -- CLAIMED after a confirmed payout, stays as it is after a rejection and goes back to ACTIVE after a
  -- failure, with a version more for each change; any other policy row is left alone.
  pub settlement_lands :
      (v : Verdict) (id k now : ℕ) (policy p : Policy) (s : State)
      → v ≢ not_configured
      → find_policy id s ≡ some p
      → (status_and_version processing (policy.version + 1) p ≡ true
          → find_policy id (batch_of db v id policy k now s).0 ≡ some (final_row v p))
        × (status_and_version processing (policy.version + 1) p ≡ false
            → find_policy id (batch_of db v id policy k now s).0 ≡ some p)
        × (count (open_claim k) (claims_of id (batch_of db v id policy k now s).0) ≡ 0)
  unfolding batch_of Settles
  settlement_lands not_configured id k now policy p s n e = absurd (n refl)
  settlement_lands no_reading id k now policy p s n e =
      reject-Lands id k (policy.version + 1) (close_claim Rows.rejected now) p s (λ c. (refl, refl))
        e
  settlement_lands not_triggered id k now policy p s n e =
      reject-Lands id k (policy.version + 1) (reject_claim now) p s (λ c. (refl, refl)) e
  settlement_lands no_product id k now policy p s n e =
      fail-Lands id k (policy.version + 1) now p s e
  settlement_lands bad_threshold id k now policy p s n e =
      fail-Lands id k (policy.version + 1) now p s e
  settlement_lands payout_failed id k now policy p s n e =
      fail-Lands id k (policy.version + 1) now p s e
  settlement_lands (payout_confirmed h) id k now policy p s n e =
      pay-Lands id k (policy.version + 1) policy.coverage_xlm now h p s e
