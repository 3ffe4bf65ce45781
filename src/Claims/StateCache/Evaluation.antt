-- ===== src/Claims/StateCache/Evaluation.antt =====
-- The time evaluation of src/claims/policy-state-cache.service.ts: when a claim is said to be possible.
use parashield_backend.Base.{
  ℕ, ◌≤◌, ◌≡◌, ◌↔◌, refl, inl, inr, Bool, true, false, not, ◌&&◌, arith, leb, ltb, and_parts,
  Bool-cases,
}
use parashield_backend.Policy.Status.{active, status_eq, eq_active}
use parashield_backend.Claims.StateCache.{
  TimeIndependentPolicyState, has_in_flight_claim, effective, apply_time_evaluation,
}

effective_active :
    (now : ℕ) (state : TimeIndependentPolicyState)
    → status_eq (effective now state) active ≡ true
    → (state.raw_status ≡ active) × (now ≤ state.end_time)
unfolding effective
effective_active now state h = elim (Bool-cases (status_eq state.raw_status active)) [
  | inl e ↦ elim (Bool-cases (ltb state.end_time now)) [
    | inl past ↦
        let v : status_eq (effective now state) active ≡ false = rw (e, effective, past) refl in cc
    | inr due ↦ (eq_active state.raw_status e, ground arith)
  ]
  | inr e ↦ let v : status_eq (effective now state) active ≡ false = rw (e, effective) e in cc
]

active_effective :
    (now : ℕ) (state : TimeIndependentPolicyState)
    → state.raw_status ≡ active
    → now ≤ state.end_time
    → status_eq (effective now state) active ≡ true
unfolding effective
active_effective now state e due =
    let on_time : ltb state.end_time now ≡ false = ground arith in rw (e, effective, on_time) refl

not-true : (b : Bool) → not b ≡ true → b ≡ false
not-true true h = cc
not-true false h = refl

-- A derived state says that a claim can be made exactly if the stored status is ACTIVE, the trigger is
-- met, no claim is paid or in flight, and the time is the end of the term to the millisecond.
pub can_claim_iff :
    (now : ℕ) (state : TimeIndependentPolicyState)
    → ((apply_time_evaluation now state).can_claim ≡ true) ↔ (
        (state.raw_status ≡ active)
        × (state.trigger_met ≡ true)
        × (state.has_paid_claim ≡ false)
        × (has_in_flight_claim state ≡ false)
        × (now ≡ state.end_time))
unfolding apply_time_evaluation
can_claim_iff now state = (
  λ h.
      let a = status_eq (effective now state) active in
      let b = a && state.trigger_met in
      let c = b && not state.has_paid_claim in
      let (r1, ripe) =
        and_parts (c && not (has_in_flight_claim state)) (leb state.end_time now) h in
      let (r2, idle) = and_parts c (not (has_in_flight_claim state)) r1 in
      let (r3, unpaid) = and_parts b (not state.has_paid_claim) r2 in
      let (runs, met) = and_parts a state.trigger_met r3 in
      let (raw, due) = effective_active now state runs in
      (
        raw,
        met,
        not-true state.has_paid_claim unpaid,
        not-true (has_in_flight_claim state) idle,
        ground arith,
      ),
  λ (raw, met, unpaid, idle, exact).
      let ripe : leb state.end_time now ≡ true = ground arith in
      let due : now ≤ state.end_time = omega (arith, exact) in
      rw (active_effective now state raw due, met, unpaid, idle) ripe,
)
