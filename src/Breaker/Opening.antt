-- ===== src/Breaker/Opening.antt =====
-- When the circuit opens, and what an open circuit does.
use parashield_backend.Base.{
  ℕ, ◌+◌, ◌≤◌, ◌<◌, ◌≡◌, ◌≢◌, false, List, [], ◌∷◌, length, All, arith, Option, some,
}
use parashield_backend.Breaker.{
  closed, open_state, CircuitBreaker, is_client_error, begin_call, end_call, execute, Answer,
  success, failure,
}

-- A counted failure: no response status, or one that is no client error.
abbrev pub Counts : Option ℕ → Type 0
Counts status = is_client_error status ≡ false

-- What holds of every breaker that the program builds: an open or half-open circuit has seen as
-- many failures as the threshold, and a closed one fewer.
pub record Inv (b : CircuitBreaker) : Type 0 where
  pub enough : b.state ≢ closed → b.failure_threshold ≤ b.failure_count
  pub fewer : b.state ≡ closed → b.failure_count < b.failure_threshold

pub begin_call-Inv : (now : ℕ) (b : CircuitBreaker) → Inv b → Inv (begin_call now b).0
unfolding begin_call
begin_call-Inv now b v = ground arith

pub end_call-Inv :
    (now : ℕ) (answer : Answer) (b : CircuitBreaker)
    → 0 < b.failure_threshold
    → Inv b
    → Inv (end_call now answer b)
unfolding end_call
end_call-Inv now success b t v = ground arith
end_call-Inv now (failure status) b t v = ground arith

-- Calls one after the other that all fail with a counted failure, at the times given.
pub fail_all : List (ℕ × Option ℕ) → CircuitBreaker → CircuitBreaker
fail_all [] b = b
fail_all ((now, status) ∷ rest) b = fail_all rest (execute now now (failure status) b).0

abbrev pub AllCount : List (ℕ × Option ℕ) → Type 0
AllCount = All (λ f. Counts f.1)

-- One counted failure of a closed circuit.
fail_step :
    (now : ℕ) (status : Option ℕ) (b : CircuitBreaker)
    → Counts status
    → b.state ≡ closed
    → let b' = (execute now now (failure status) b).0 in
      (b'.failure_threshold ≡ b.failure_threshold)
      × (b'.failure_count ≡ b.failure_count + 1)
      × (b.failure_count + 1 < b.failure_threshold → b'.state ≡ closed)
      × (b.failure_count + 1 ≡ b.failure_threshold → b'.state ≡ open_state)
unfolding execute
fail_step now status b h c = ground arith

stays_closed :
    (fs : List (ℕ × Option ℕ)) (b : CircuitBreaker)
    → AllCount fs
    → b.state ≡ closed
    → b.failure_count + length fs < b.failure_threshold
    → ((fail_all fs b).state ≡ closed)
      × ((fail_all fs b).failure_count ≡ b.failure_count + length fs)
unfolding fail_all
stays_closed [] b h c few = (c, omega arith)
stays_closed ((now, status) ∷ rest) b h c few =
    let (t, n, shut, opened) = fail_step now status b h.0 c in
    let (st, count) =
      stays_closed rest (execute now now (failure status) b).0 h.1 (shut (omega arith))
        (omega (arith, t, n)) in
    (st, omega (arith, count, n))

reaches_open :
    (fs : List (ℕ × Option ℕ)) (b : CircuitBreaker)
    → AllCount fs
    → b.state ≡ closed
    → b.failure_count < b.failure_threshold
    → b.failure_count + length fs ≡ b.failure_threshold
    → (fail_all fs b).state ≡ open_state
unfolding fail_all
reaches_open [] b h c below at = absurd (omega arith)
reaches_open ((now, status) ∷ []) b h c below at = (fail_step now status b h.0 c).3 (omega arith)
reaches_open ((now, status) ∷ f ∷ rest) b h c below at =
    let (t, n, shut, opened) = fail_step now status b h.0 c in
    reaches_open (f ∷ rest) (execute now now (failure status) b).0 h.1 (shut (omega arith))
      (omega (arith, t, n)) (omega (arith, t, n))

-- A closed circuit opens exactly when the consecutive counted failures reach the threshold: with
-- fewer it stays closed and has counted each of them, with as many it is open.
pub opens_at_threshold :
    (fs : List (ℕ × Option ℕ)) (b : CircuitBreaker)
    → AllCount fs
    → b.state ≡ closed
    → (b.failure_count + length fs < b.failure_threshold
        → ((fail_all fs b).state ≡ closed)
          × ((fail_all fs b).failure_count ≡ b.failure_count + length fs))
      × (b.failure_count < b.failure_threshold
          → b.failure_count + length fs ≡ b.failure_threshold
          → (fail_all fs b).state ≡ open_state)
opens_at_threshold fs b h c = (stays_closed fs b h c, reaches_open fs b h c)

-- A client error, 400 to 499, changes nothing of a closed circuit, and a success forgets the
-- failures that were counted.
pub closed_forgives :
    (now : ℕ) (status : ℕ) (b : CircuitBreaker)
    → b.state ≡ closed
    → 400 ≤ status
    → status < 500
    → ((execute now now (failure (some status)) b).0 ≡ b)
      × ((execute now now success b).0.failure_count ≡ 0)
      × ((execute now now success b).0.state ≡ closed)
unfolding execute
closed_forgives now status b c h k = ground arith

-- Until the reset time has passed an open circuit lets no call through and does not change.
pub open_fails_fast :
    (started ended : ℕ) (answer : Answer) (b : CircuitBreaker)
    → b.state ≡ open_state
    → started < b.last_failure_time + b.reset_timeout_ms
    → execute started ended answer b ≡ (b, false)
unfolding execute
open_fails_fast started ended answer b o early = ground arith
