-- ===== src/Horizon/Circuit.antt =====
-- The Horizon circuit: it opens on timeouts alone, and no probe is left behind.
use parashield_backend.Base.{
  ℕ, zero, suc, ◌+◌, ◌-◌, ◌≤◌, ◌<◌, ◌≡◌, ◌≢◌, refl, true, false, List, [], ◌∷◌, arith, none, some,
  ◌∙◌, Bool-cases, Option-cases, inl, inr,
}
use parashield_backend.Horizon.{
  HorizonCircuitBreaker, acquire, record_response, record_timeout, Outcome, result, unavailable,
  timed_out, rethrown, settle, Attempt, attempt_from, call_horizon,
}

-- One whole call of `callHorizon`, by when it began and ended and what it met.
pub record Call : Type 0 where
  pub started : ℕ
  pub ended : ℕ
  pub max_attempts : ℕ
  pub answers : ℕ → Attempt

pub run_calls : List Call → HorizonCircuitBreaker → HorizonCircuitBreaker
run_calls [] b = b
run_calls (c ∷ cs) b = run_calls cs (call_horizon c.started c.ended c.max_attempts c.answers b).0

-- Between calls no probe is in flight, and an open circuit has counted as many timeouts as the
-- threshold.
pub record Inv (b : HorizonCircuitBreaker) : Type 0 where
  pub idle : b.probe_in_flight ≡ false
  pub counted : b.opened_at ≢ none → b.threshold ≤ b.consecutive_timeouts
  pub below : b.opened_at ≡ none → b.consecutive_timeouts < b.threshold

attempt_from-available :
    (left n : ℕ) (answers : ℕ → Attempt) → (attempt_from left n answers).0 ≢ unavailable
unfolding attempt_from
attempt_from-available zero n answers = ground arith
attempt_from-available (suc left) n answers =
    ground (arith, attempt_from-available left (n + 1) answers)

settle-Inv :
    (now : ℕ) (o : Outcome) (b : HorizonCircuitBreaker)
    → 0 < b.threshold
    → (b.opened_at ≢ none → b.threshold ≤ b.consecutive_timeouts)
    → (b.opened_at ≡ none → b.consecutive_timeouts < b.threshold)
    → Inv (settle now o b)
unfolding record_response record_timeout
settle-Inv now result b t c l = ground arith
settle-Inv now unavailable b t c l = ground arith
settle-Inv now (timed_out n) b t c l = ground arith
settle-Inv now (rethrown e) b t c l = ground arith

-- What `acquire` leaves alone.
acquire_keeps :
    (now : ℕ) (b : HorizonCircuitBreaker)
    → let (c, admitted) = acquire now b in
      (c.threshold ≡ b.threshold)
      × (c.opened_at ≡ b.opened_at)
      × (c.consecutive_timeouts ≡ b.consecutive_timeouts)
      × (c.reset_timeout_ms ≡ b.reset_timeout_ms)
      × (admitted ≡ false → c ≡ b)
unfolding acquire
acquire_keeps now b = ground arith

abbrev Keeps : HorizonCircuitBreaker → HorizonCircuitBreaker → Type 0
Keeps b c = (c.threshold ≡ b.threshold) × (c.reset_timeout_ms ≡ b.reset_timeout_ms)

settle-Keeps : (now : ℕ) (o : Outcome) (b : HorizonCircuitBreaker) → Keeps b (settle now o b)
unfolding record_response record_timeout
settle-Keeps now result b = ground arith
settle-Keeps now unavailable b = ground arith
settle-Keeps now (timed_out n) b = ground arith
settle-Keeps now (rethrown e) b = ground arith

call_horizon-Keeps :
    (started ended m : ℕ) (answers : ℕ → Attempt) (b : HorizonCircuitBreaker)
    → Keeps b (call_horizon started ended m answers b).0
unfolding call_horizon
call_horizon-Keeps started ended m answers b =
    let (t, o, n, r, same) = acquire_keeps started b in
    let (u, q) = settle-Keeps ended (attempt_from (m - 1) 1 answers).0 (acquire started b).0 in
    elim (Bool-cases (acquire started b).1) [
      | inl yes_admitted ↦ rw (yes_admitted, call_horizon) (u ∙ t, q ∙ r)
      | inr refused ↦ rw (refused, call_horizon) (t, r)
    ]

call_horizon-Inv :
    (started ended max_attempts : ℕ) (answers : ℕ → Attempt) (b : HorizonCircuitBreaker)
    → 0 < b.threshold
    → Inv b
    → Inv (call_horizon started ended max_attempts answers b).0
unfolding call_horizon
call_horizon-Inv started ended m answers b t v =
    let (th, o, n, r, same) = acquire_keeps started b in
    elim (Bool-cases (acquire started b).1) [
      | inl yes_admitted ↦
          rw (yes_admitted, call_horizon)
            (settle-Inv ended (attempt_from (m - 1) 1 answers).0 (acquire started b).0 (rw th t)
              (rw (th, o, n) v.counted) (rw (th, o, n) v.below))
      | inr refused ↦ rw (refused, call_horizon) (rw (same refused) v)
    ]

acquire_admits :
    (now : ℕ) (b : HorizonCircuitBreaker)
    → b.probe_in_flight ≡ false
    → ((at : ℕ) → b.opened_at ≡ some at → at + b.reset_timeout_ms ≤ now)
    → (acquire now b).1 ≡ true
unfolding acquire
acquire_admits now b idle due = elim (Option-cases b.opened_at) [
  | inl shut ↦ ground arith
  | inr (at, e) ↦ ground (arith, due at e)
]

run_calls-Inv :
    (calls : List Call) (b : HorizonCircuitBreaker)
    → 0 < b.threshold
    → Inv b
    → Inv (run_calls calls b)
unfolding run_calls
run_calls-Inv [] b t v = v
run_calls-Inv (c ∷ cs) b t v =
    let next = (call_horizon c.started c.ended c.max_attempts c.answers b).0 in
    run_calls-Inv cs next (rw (call_horizon-Keeps c.started c.ended c.max_attempts c.answers b).0 t)
      (call_horizon-Inv c.started c.ended c.max_attempts c.answers b t v)

run_calls-Keeps : (calls : List Call) (b : HorizonCircuitBreaker) → Keeps b (run_calls calls b)
unfolding run_calls
run_calls-Keeps [] b = (refl, refl)
run_calls-Keeps (c ∷ cs) b =
    let (t, r) = call_horizon-Keeps c.started c.ended c.max_attempts c.answers b in
    let (u, q) = run_calls-Keeps cs (call_horizon c.started c.ended c.max_attempts c.answers b).0 in
    (u ∙ t, q ∙ r)

-- Over any calls, one after the other, the invariant is kept. So after every one of them the circuit
-- is closed, or a call that begins once the reset time has passed is let through: a probe never
-- blocks the circuit for good.
pub circuit_recovers :
    (calls : List Call) (now : ℕ) (b : HorizonCircuitBreaker)
    → 0 < b.threshold
    → Inv b
    → Inv (run_calls calls b)
      × (((at : ℕ) → (run_calls calls b).opened_at ≡ some at → at + b.reset_timeout_ms ≤ now)
          → (acquire now (run_calls calls b)).1 ≡ true)
circuit_recovers calls now b t v =
    let after = run_calls-Inv calls b t v in
    (
      after,
      λ due.
          acquire_admits now (run_calls calls b) after.idle
            (λ at e. rw (run_calls-Keeps calls b).1 (due at e)),
    )
