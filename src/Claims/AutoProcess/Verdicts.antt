-- ===== src/Claims/AutoProcess/Verdicts.antt =====
-- What each outcome of the decisions of `autoProcess` (src/claims/claims.service.ts) rests on.
use Prim.{absurd}
use mathlib.Core.Path.{subst}
use parashield_backend.Base.{
  ℕ, ◌≤◌, ◌≡◌, ◌≢◌, refl, sym, ap, ◌∙◌, inl, inr, true, false, List, arith, Option, none, some,
  Bool-cases, Option-cases, ltb,
}
use parashield_backend.Policy.Status.{active, status_eq, eq_active}
use parashield_backend.Claims.Rows.{Policy, OracleReading, Product}
use parashield_backend.Claims.AutoProcess.Evaluate.{
  Verdict, bad_threshold, not_triggered, not_configured, payout_failed, payout_confirmed, paid,
  early_return, is_contract_id, is_transaction_hash, pay, trigger_met, evaluate, policy_not_active,
  expired, pending_final_period,
}

pub early_return-none :
    (now later : ℕ) (p : Policy)
    → early_return now later p ≡ none
    → (p.status ≡ active) × (now ≤ p.end_time) × (p.end_time ≤ later)
unfolding early_return
early_return-none now later p h = elim (Bool-cases (status_eq p.status active)) [
  | inr e ↦
      let v : early_return now later p ≡ some policy_not_active = rw (e, early_return) refl in cc
  | inl e ↦ elim (Bool-cases (ltb p.end_time now)) [
    | inl past ↦
        let v : early_return now later p ≡ some expired = rw (e, early_return, past) refl in cc
    | inr due ↦ elim (Bool-cases (ltb later p.end_time)) [
      | inl wait ↦
          let v : early_return now later p ≡ some pending_final_period =
            rw (e, early_return, due, wait) refl in
          cc
      | inr ripe ↦ (eq_active p.status e, ground arith, ground arith)
    ]
  ]
]

pub early_return_not_paid : (now later : ℕ) (p : Policy) → early_return now later p ≢ some paid
unfolding early_return
early_return_not_paid now later p h = elim (Bool-cases (status_eq p.status active)) [
  | inr e ↦
      let v : early_return now later p ≡ some policy_not_active = rw (e, early_return) refl in cc
  | inl e ↦ elim (Bool-cases (ltb p.end_time now)) [
    | inl past ↦
        let v : early_return now later p ≡ some expired = rw (e, early_return, past) refl in cc
    | inr due ↦ elim (Bool-cases (ltb later p.end_time)) [
      | inl wait ↦
          let v : early_return now later p ≡ some pending_final_period =
            rw (e, early_return, due, wait) refl in
          cc
      | inr ripe ↦
          let v : early_return now later p ≡ none = rw (e, early_return, due, ripe) refl in cc
    ]
  ]
]

-- A verdict after which the contract has been called.
abbrev pub Called : Verdict → Type 0
Called (payout_confirmed h) = Unit
Called payout_failed = Unit
Called verdict = ⊥

pay-Called : (cid : List ℕ) (a : Option (List ℕ)) → Called (pay cid a) → is_contract_id cid ≡ true
unfolding pay
pay-Called cid none c = elim (Bool-cases (is_contract_id cid)) [
  | inl e ↦ e
  | inr e ↦ (let v : pay cid none ≡ not_configured = rw (pay, e) refl in absurd (subst Called v c))
]
pay-Called cid (some h) c = elim (Bool-cases (is_contract_id cid)) [
  | inl e ↦ e
  | inr e ↦
      (let v : pay cid (some h) ≡ not_configured = rw (pay, e) refl in absurd (subst Called v c))
]

pay_confirmed :
    (cid h : List ℕ) (a : Option (List ℕ))
    → pay cid a ≡ payout_confirmed h
    → (a ≡ some h) × (is_transaction_hash h ≡ true)
unfolding pay
pay_confirmed cid h none e = elim (Bool-cases (is_contract_id cid)) [
  | inl valid ↦ let v : pay cid none ≡ payout_failed = rw (pay, valid) refl in cc
  | inr bad ↦ let v : pay cid none ≡ not_configured = rw (pay, bad) refl in cc
]
pay_confirmed cid h (some x) e = elim (Bool-cases (is_contract_id cid)) [
  | inr bad ↦ let v : pay cid (some x) ≡ not_configured = rw (pay, bad) refl in cc
  | inl valid ↦ elim (Bool-cases (is_transaction_hash x)) [
    | inr odd ↦ let v : pay cid (some x) ≡ payout_failed = rw (pay, valid, odd) refl in cc
    | inl fits ↦
        let v : pay cid (some x) ≡ payout_confirmed x = rw (pay, valid, fits) refl in
        let same : x ≡ h = cc in (ap some same, rw (← same) fits)
  ]
]

-- What was evaluated before the contract was called.
pub record Triggered (r : Option OracleReading) (p : Option Product) (cid : List ℕ) : Type 0 where
  pub reading : OracleReading
  pub product : Product
  pub read : r ≡ some reading
  pub known : p ≡ some product
  pub met : trigger_met reading product ≡ some true
  pub configured : is_contract_id cid ≡ true

evaluate_pays :
    (r : OracleReading) (p : Product) (cid : List ℕ) (a : Option (List ℕ))
    → Called (evaluate (some r) (some p) cid a)
    → (trigger_met r p ≡ some true) × (evaluate (some r) (some p) cid a ≡ pay cid a)
unfolding evaluate
evaluate_pays r p cid a c = elim (Option-cases (trigger_met r p)) [
  | inl e ↦
      (let v : evaluate (some r) (some p) cid a ≡ bad_threshold = rw (e, evaluate) refl in
        absurd (subst Called v c))
  | inr (true, e) ↦ (e, rw (e, evaluate) refl)
  | inr (false, e) ↦
      (let v : evaluate (some r) (some p) cid a ≡ not_triggered = rw (e, evaluate) refl in
        absurd (subst Called v c))
]

pub evaluate-Triggered :
    (r : Option OracleReading) (p : Option Product) (cid : List ℕ) (a : Option (List ℕ))
    → Called (evaluate r p cid a)
    → Triggered r p cid
unfolding evaluate
evaluate-Triggered none p cid a c = absurd c
evaluate-Triggered (some r) none cid a c = absurd c
evaluate-Triggered (some r) (some p) cid a c =
    let (met, pays) = evaluate_pays r p cid a c in
    record {
      reading = r;
      product = p;
      read = refl;
      known = refl;
      met = met;
      configured = pay-Called cid a (subst Called pays c);
    }

pub evaluate_answer :
    (r : Option OracleReading) (p : Option Product) (cid h : List ℕ) (a : Option (List ℕ))
    → evaluate r p cid a ≡ payout_confirmed h
    → (a ≡ some h) × (is_transaction_hash h ≡ true)
unfolding evaluate
evaluate_answer none p cid h a e = cc
evaluate_answer (some r) none cid h a e = cc
evaluate_answer (some r) (some p) cid h a e =
    let (met, pays) = evaluate_pays r p cid a (subst Called (sym e) tt) in
    pay_confirmed cid h a (sym pays ∙ e)
