-- ===== src/Claims/AutoProcess/Progress.antt =====
-- That `autoProcess` of src/claims/claims.service.ts does pay.
use parashield_backend.Base.{
  ℕ, ◌≤◌, ◌≡◌, ◌≢◌, refl, sym, ap, ◌∙◌, true, false, arith, Option, none, some, List, find, any,
  ltb, ◌==◌, ==_refl,
}
use parashield_backend.Policy.Status.{active, processing}
use parashield_backend.Claims.Rows.{Policy, Claim, OracleReading, Product}
use parashield_backend.Claims.Database.{Database, is_unsettled}
use parashield_backend.Claims.Transaction.{
  DatabaseError, Callback, commit, ok, financial_transaction,
}
use parashield_backend.Claims.Transaction.Attempts.{outcome, first_decides}
use parashield_backend.Claims.AutoProcess.{
  reserved, is_processed, new_claim, returned, Surroundings, insert_claim, reserve, settlement,
  settle, try_audit, after_reservation, process_policy, auto_process, read_snapshot,
}
use parashield_backend.Claims.AutoProcess.Gate.{gated}
use parashield_backend.Claims.AutoProcess.Effects.{move_to, status_and_version, batch_of}
use parashield_backend.Claims.AutoProcess.Evaluate.{
  Verdict, payout_confirmed, paid, early_return, is_contract_id, is_transaction_hash, pay,
  trigger_met, evaluate,
}

evaluate-confirmed :
    (r : OracleReading) (p : Product) (cid h : List ℕ)
    → trigger_met r p ≡ some true
    → is_contract_id cid ≡ true
    → is_transaction_hash h ≡ true
    → evaluate (some r) (some p) cid (some h) ≡ payout_confirmed h
unfolding evaluate pay
evaluate-confirmed r p cid h met valid fits = rw (met, evaluate) (rw (valid, fits) refl)

early_return-passes :
    (now later : ℕ) (p : Policy)
    → p.status ≡ active
    → now ≤ p.end_time
    → p.end_time ≤ later
    → early_return now later p ≡ none
unfolding early_return
early_return-passes now later p run due ripe =
    let on_time : ltb p.end_time now ≡ false = ground arith in
    let over : ltb later p.end_time ≡ false = ground arith in rw (run, on_time, over) refl

some_not_none : (p : Policy) → some p ≢ none
some_not_none p e = cc

module _ (db : Database) where
  open db use {
    State, find_policy, claims_of, latest_reading, update_policies, fresh_id, create_claim,
  }

  unaborted :
      {S A E : Type 0} (aborts : ℕ → Option DatabaseError) (run : S → Callback S A E) (s t : S)
      (a : A)
      → aborts 1 ≡ none
      → run s ≡ commit a t
      → financial_transaction aborts run s ≡ (ok a, t)
  unaborted aborts run s t a free done =
      first_decides aborts run s free ∙ ap (λ c. outcome c s) done

  -- A policy that is ACTIVE at the version of the snapshot, with no claim in the way, is reserved.
  reserve-succeeds :
      (id : ℕ) (p : Policy) (s : State)
      → find_policy id s ≡ some p
      → p.status ≡ active
      → find is_processed (claims_of id s) ≡ none
      → any is_unsettled (claims_of id s) ≡ false
      → (c : Claim) × (t : State) × (reserve db id p s ≡ commit (reserved c) t)
  unfolding reserve insert_claim
  reserve-succeeds id p s found run unprocessed free =
      let guard = status_and_version active p.version in
      let gs = gated db id p s in
      let claim = new_claim (fresh_id gs) id p in
      let fits : status_and_version active p.version p ≡ true = rw (run, ==_refl p.version) refl in
      let one : (update_policies id guard (move_to processing) s).1 ≡ 1 =
        db.count-update_policies id guard (move_to processing) s ∙ rw (found, fits) refl in
      let hit : ((update_policies id guard (move_to processing) s).1 == 0) ≡ false = rw one refl in
      let row : find_policy id gs ≡ some (move_to processing p) =
        db.find_policy-update_policies id id guard (move_to processing) s
        ∙ rw (==_refl id, found, fits) refl in
      let still : any is_unsettled (claims_of id gs) ≡ false =
        ap (any is_unsettled) (db.claims_of-update_policies id id guard (move_to processing) s)
        ∙ free in
      let (t, made) =
        db.create_claim-first claim gs still refl
          (λ missing. some_not_none (move_to processing p) (sym row ∙ missing)) in
      (claim, t, rw (unprocessed, reserve, hit) (rw (made, insert_claim) refl))

  settle-pays :
      (id : ℕ) (p : Policy) (c : Claim) (env : Surroundings State) (s : State) (v : Verdict)
      (h : List ℕ)
      → v ≡ payout_confirmed h
      → env.settle_aborts 1 ≡ none
      → (settle db v id p c env s).ending ≡ returned paid
  unfolding settle settlement
  settle-pays id p c env s v h e free =
      let run = settlement db (payout_confirmed h) id p c env.processed_at in
      let (t, n) = batch_of db (payout_confirmed h) id p c.id env.processed_at s in
      let done : financial_transaction env.settle_aborts run s ≡ (ok n, t) =
        unaborted env.settle_aborts run s t n free refl in
      rw (e) (rw (done, settle) refl)

  -- A call pays if nothing is in its way: the policy is read as ACTIVE with the end of its term between
  -- the two clock readings, its reading meets the trigger of its product, contract id and answer are
  -- well formed, the database aborts no first attempt, and the reservation meets the same policy row,
  -- with no claim that is PENDING, PROCESSING, PAID or REJECTED.
  pub pays_when :
      (id : ℕ) (env : Surroundings State) (s : State) (p : Policy) (r : OracleReading)
      (product : Product) (h : List ℕ)
      → find_policy id s ≡ some p
      → p.status ≡ active
      → env.now ≤ p.end_time
      → p.end_time ≤ env.later
      → latest_reading p.oracle_key s ≡ some r
      → env.product_by_id p.product_id ≡ some product
      → trigger_met r product ≡ some true
      → is_contract_id env.contract_id ≡ true
      → env.answer ≡ some h
      → is_transaction_hash h ≡ true
      → env.reserve_aborts 1 ≡ none
      → env.settle_aborts 1 ≡ none
      → find_policy id (env.before_reserve s) ≡ some p
      → find is_processed (claims_of id (env.before_reserve s)) ≡ none
      → any is_unsettled (claims_of id (env.before_reserve s)) ≡ false
      → (auto_process db id env s).ending ≡ returned paid
  unfolding auto_process read_snapshot process_policy after_reservation
  pays_when id env s p r product h found run due ripe read known met valid answered fits first last
        row unprocessed free =
      let (c, t, made) = reserve-succeeds id p (env.before_reserve s) row run unprocessed free in
      let done : financial_transaction env.reserve_aborts (reserve db id p) (env.before_reserve s)
          ≡ (ok (reserved c), t) =
        unaborted env.reserve_aborts (reserve db id p) (env.before_reserve s) t (reserved c) first
          made in
      let passes : early_return env.now env.later p ≡ none =
        early_return-passes env.now env.later p run due ripe in
      let verdict : evaluate (latest_reading p.oracle_key s) (env.product_by_id p.product_id)
            env.contract_id env.answer
          ≡ payout_confirmed h =
        rw (read, known, answered)
          (evaluate-confirmed r product env.contract_id h met valid fits) in
      rw (found, auto_process, passes)
        (rw (done, process_policy)
          (settle-pays id p c env
            (env.before_settle (try_audit db env.gate_audit_fails id active processing t))
            (evaluate (latest_reading p.oracle_key s) (env.product_by_id p.product_id)
              env.contract_id env.answer)
            h verdict last))
