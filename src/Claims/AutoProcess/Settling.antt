-- ===== src/Claims/AutoProcess/Settling.antt =====
-- What follows the reservation in `autoProcess` of src/claims/claims.service.ts: lemmas on its calls
-- and on its result.
use Prim.{absurd}
use parashield_backend.Base.{ℕ, ◌≡◌, ◌≢◌, refl, sym, ap, ◌∙◌, ◌⊎◌, inl, inr, List, [], ◌∷◌, Option}
use parashield_backend.Policy.Status.{active, processing}
use parashield_backend.Claims.Rows.{Policy, Claim, OracleReading}
use parashield_backend.Claims.Database.{Database}
use parashield_backend.Claims.Transaction.{Result, ok, aborted, threw, financial_transaction}
use parashield_backend.Claims.AutoProcess.{
  Failure, bad_gateway, Reservation, duplicate, lost_race, reserved, returned, thrown, Surroundings,
  Run, finish, settlement, settle, try_audit, proceed, after_reservation,
}
use parashield_backend.Claims.AutoProcess.Effects.{result_of, calls_of}
use parashield_backend.Claims.AutoProcess.Evaluate.{
  Verdict, no_reading, no_product, bad_threshold, not_triggered, not_configured, payout_failed,
  payout_confirmed, paid, evaluate,
}
use parashield_backend.Claims.AutoProcess.Verdicts.{Called}

calls_of-Called : (v : Verdict) (id : ℕ) → calls_of v id ≢ [] → Called v × (calls_of v id ≡ id ∷ [])
calls_of-Called (payout_confirmed h) id n = (tt, refl)
calls_of-Called payout_failed id n = (tt, refl)
calls_of-Called no_reading id n = absurd (n refl)
calls_of-Called no_product id n = absurd (n refl)
calls_of-Called bad_threshold id n = absurd (n refl)
calls_of-Called not_triggered id n = absurd (n refl)
calls_of-Called not_configured id n = absurd (n refl)

result_of_paid : (v : Verdict) → result_of v ≡ paid → (h : List ℕ) × (v ≡ payout_confirmed h)
result_of_paid (payout_confirmed h) e = (h, refl)
result_of_paid payout_failed e = cc
result_of_paid no_reading e = cc
result_of_paid no_product e = cc
result_of_paid bad_threshold e = cc
result_of_paid not_triggered e = cc
result_of_paid not_configured e = cc

module _ (db : Database) where
  open db use {State, find_policy, latest_reading}

  finish_calls :
      (r : Result ℕ Failure) (v : Verdict) (id : ℕ) (c : Claim) (env : Surroundings State)
      (t : State)
      → (finish db r v id c env t).calls ≡ calls_of v id
  finish_calls (aborted e) v id c env t = refl
  finish_calls (threw f) v id c env t = refl
  finish_calls (ok n) v id c env t = refl

  finish_paid :
      (r : Result ℕ Failure) (v : Verdict) (id : ℕ) (c : Claim) (env : Surroundings State)
      (t : State)
      → (finish db r v id c env t).ending ≡ returned paid
      → (h : List ℕ) × (v ≡ payout_confirmed h)
  finish_paid (aborted e) v id c env t p = cc
  finish_paid (threw f) v id c env t p = cc
  finish_paid (ok n) v id c env t p = result_of_paid v (let q : result_of v ≡ paid = cc in q)

  module _ (id : ℕ) (policy : Policy) (claim : Claim) (env : Surroundings State) (s : State) where
    abbrev run_settlement : Verdict → Result ℕ Failure × State
    run_settlement v =
        financial_transaction env.settle_aborts (settlement db v id policy claim env.processed_at) s

    settle-finish :
        (v : Verdict)
        → (v ≡ not_configured)
          ⊎ (settle db v id policy claim env s
              ≡ finish db (run_settlement v).0 v id claim env (run_settlement v).1)
    unfolding settle
    settle-finish not_configured = inl refl
    settle-finish (payout_confirmed h) = inr refl
    settle-finish payout_failed = inr refl
    settle-finish no_reading = inr refl
    settle-finish no_product = inr refl
    settle-finish bad_threshold = inr refl
    settle-finish not_triggered = inr refl

    settle_calls : (v : Verdict) → (settle db v id policy claim env s).calls ≡ calls_of v id
    unfolding settle
    settle_calls v = elim (settle-finish v) [
      | inl e ↦ rw e refl
      | inr e ↦ rw e (finish_calls (run_settlement v).0 v id claim env (run_settlement v).1)
    ]

    settle_paid :
        (v : Verdict)
        → (settle db v id policy claim env s).ending ≡ returned paid
        → (h : List ℕ) × (v ≡ payout_confirmed h)
    unfolding settle
    settle_paid v p = elim (settle-finish v) [
      | inl e ↦
          (let q : (settle db v id policy claim env s).ending ≡ thrown bad_gateway = rw e refl in
            absurd (let x : returned paid ≡ thrown bad_gateway = sym p ∙ q in cc))
      | inr e ↦
          finish_paid (run_settlement v).0 v id claim env (run_settlement v).1
            (sym (ap Run.ending e) ∙ p)
    ]

  -- The verdict that a reservation leads to, and what it does.
  abbrev pub verdict : Policy → Option OracleReading → Surroundings State → Verdict
  verdict policy reading env =
      evaluate reading (env.product_by_id policy.product_id) env.contract_id env.answer

  pub proceed_calls :
      (r : Result Reservation Failure) (id : ℕ) (policy : Policy) (reading : Option OracleReading)
      (env : Surroundings State) (t : State)
      → (proceed db r id policy reading env t).calls ≢ []
      → (c : Claim) × (r ≡ ok (reserved c))
        × Called (verdict policy reading env)
        × ((proceed db r id policy reading env t).calls ≡ id ∷ [])
  unfolding after_reservation
  proceed_calls (aborted e) id policy reading env t n = absurd (n refl)
  proceed_calls (threw f) id policy reading env t n = absurd (n refl)
  proceed_calls (ok (duplicate old)) id policy reading env t n = absurd (n refl)
  proceed_calls (ok lost_race) id policy reading env t n = absurd (n refl)
  proceed_calls (ok (reserved c)) id policy reading env t n =
      let e =
        settle_calls id policy c env
          (env.before_settle (try_audit db env.gate_audit_fails id active processing t))
          (verdict policy reading env) in
      let (called, one) = calls_of-Called (verdict policy reading env) id (λ z. n (e ∙ z)) in
      (c, refl, called, e ∙ one)

  pub proceed_paid :
      (r : Result Reservation Failure) (id : ℕ) (policy : Policy) (reading : Option OracleReading)
      (env : Surroundings State) (t : State)
      → (proceed db r id policy reading env t).ending ≡ returned paid
      → (c : Claim) × (h : List ℕ) × (r ≡ ok (reserved c))
        × (verdict policy reading env ≡ payout_confirmed h)
  unfolding after_reservation
  proceed_paid (aborted e) id policy reading env t p = cc
  proceed_paid (threw f) id policy reading env t p = cc
  proceed_paid (ok (duplicate old)) id policy reading env t p = cc
  proceed_paid (ok lost_race) id policy reading env t p = cc
  proceed_paid (ok (reserved c)) id policy reading env t p =
      let (h, e) =
        settle_paid id policy c env
          (env.before_settle (try_audit db env.gate_audit_fails id active processing t))
          (verdict policy reading env) p in
      (c, h, refl, e)
