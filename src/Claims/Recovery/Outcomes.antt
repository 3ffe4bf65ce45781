-- ===== src/Claims/Recovery/Outcomes.antt =====
-- What a recovery of src/claims/claims.service.ts means, and its summary.
use parashield_backend.Base.{
  ℕ, ◌+◌, ◌≡◌, refl, inl, inr, Bool, true, false, arith, List, [], ◌∷◌, any, keep, length,
  Bool-cases,
}
use parashield_backend.Claims.Database.{Database}
use parashield_backend.Claims.Transaction.{Result, ok, aborted, threw, financial_transaction}
use parashield_backend.Claims.Transaction.Attempts.{Atomic, transaction-Atomic}
use parashield_backend.Claims.Recovery.{
  Stuck, StuckPolicyRecoverySummary, tally, Outcome, marked_claimed, needs_manual_review,
  reverted_to_active, skipped, Conditions, is_paid, is_in_flight, has_hash, revert, after_revert,
  recover, recover_rows,
}
use parashield_backend.Claims.Recovery.Rules.{Recovered, revert-Reverted, mark_claimed-Recovered}

module _ (db : Database) where
  open db use {State, find_policy}

  after_revert-Recovered :
      (r : Result Bool Unit) (now cutoff : ℕ) (stuck : Stuck) (s t : State)
      → any is_paid stuck.claims ≡ false
      → any has_hash (keep is_in_flight stuck.claims) ≡ false
      → Atomic (revert db now cutoff stuck.id (keep is_in_flight stuck.claims)) s r t
      → Recovered db cutoff stuck s
          (after_revert db r stuck.id (keep is_in_flight stuck.claims) t).0
          (after_revert db r stuck.id (keep is_in_flight stuck.claims) t).1
  after_revert-Recovered (ok true) now cutoff stuck s t unpaid unsent done = (
    unpaid,
    unsent,
    revert-Reverted db now cutoff stuck.id (keep is_in_flight stuck.claims) s t true done,
  )
  after_revert-Recovered (ok false) now cutoff stuck s t unpaid unsent done =
      revert-Reverted db now cutoff stuck.id (keep is_in_flight stuck.claims) s t false done
  after_revert-Recovered (aborted e) now cutoff stuck s t unpaid unsent same = rw same refl
  after_revert-Recovered (threw e) now cutoff stuck s t unpaid unsent (thrown, same) = rw same refl

  -- A recovered policy was PROCESSING and older than the cutoff. It becomes CLAIMED only if a scanned
  -- claim is PAID, and ACTIVE, to be tried again, only if no claim is PAID and none that is in flight
  -- has a transaction hash. With such a hash and no PAID claim nothing is written, and a skipped row
  -- keeps its policy as it was.
  pub recover-Recovered :
      (now cutoff : ℕ) (env : Conditions) (stuck : Stuck) (s : State)
      → Recovered db cutoff stuck s
          (recover db now cutoff env stuck s).0
          (recover db now cutoff env stuck s).1
  unfolding recover
  recover-Recovered now cutoff env stuck s = elim (Bool-cases (any is_paid stuck.claims)) [
    | inl paid ↦ rw (recover, paid) (mark_claimed-Recovered db cutoff stuck env s paid)
    | inr unpaid ↦ elim (Bool-cases (any has_hash (keep is_in_flight stuck.claims))) [
      | inl sent ↦ rw (recover, unpaid, sent) (unpaid, sent, refl)
      | inr unsent ↦
          rw (recover, unpaid, unsent)
            (after_revert-Recovered
              (financial_transaction env.aborts
                (revert db now cutoff stuck.id (keep is_in_flight stuck.claims)) s).0
              now cutoff stuck s
              (financial_transaction env.aborts
                (revert db now cutoff stuck.id (keep is_in_flight stuck.claims)) s).1
              unpaid unsent
              (transaction-Atomic env.aborts
                (revert db now cutoff stuck.id (keep is_in_flight stuck.claims)) s))
    ]
  ]

  tally_total :
      (o : Outcome) (r : StuckPolicyRecoverySummary)
      → ((tally o r).scanned ≡ r.scanned + 1)
        × ((tally o r).reverted + (tally o r).claimed_count + (tally o r).manual + (tally o r).skips
            ≡ r.reverted + r.claimed_count + r.manual + r.skips + 1)
  tally_total marked_claimed r = (refl, omega arith)
  tally_total needs_manual_review r = (refl, omega arith)
  tally_total reverted_to_active r = (refl, omega arith)
  tally_total skipped r = (refl, omega arith)

  -- The summary counts every scanned row exactly once.
  pub summary_adds_up :
      (now cutoff : ℕ) (rows : List (Stuck × Conditions)) (s : State)
      → ((recover_rows db now cutoff rows s).0.scanned ≡ length rows)
        × ((recover_rows db now cutoff rows s).0.reverted
              + (recover_rows db now cutoff rows s).0.claimed_count
              + (recover_rows db now cutoff rows s).0.manual
              + (recover_rows db now cutoff rows s).0.skips
            ≡ length rows)
  unfolding recover_rows
  summary_adds_up now cutoff [] s = (refl, refl)
  summary_adds_up now cutoff ((stuck, env) ∷ rows) s =
      let (scanned, total) =
        summary_adds_up now cutoff rows (recover db now cutoff env stuck s).1 in
      let (one, more) =
        tally_total (recover db now cutoff env stuck s).0
          (recover_rows db now cutoff rows (recover db now cutoff env stuck s).1).0 in
      (omega (arith, scanned, one), omega (arith, total, more))
