-- ===== src/Breaker/Probe.antt =====
-- The half-open circuit: one probe at a time, what its answer decides, and the answer that decides
-- nothing.
use parashield_backend.Base.{
  ℕ, ◌+◌, ◌≤◌, ◌<◌, ◌≡◌, refl, Bool, true, false, List, [], ◌∷◌, arith, ap, Option, some,
}
use parashield_backend.Breaker.{
  closed, open_state, half_open, CircuitBreaker, begin_call, execute, success, failure,
}
use parashield_backend.Breaker.Opening.{Inv, Counts}

-- Calls that begin while others may still be waiting: whether each was let through.
pub begin_all : List ℕ → CircuitBreaker → CircuitBreaker × List Bool
begin_all [] b = (b, [])
begin_all (now ∷ later) b =
    let (c, let_through) = begin_call now b in
    let (d, others) = begin_all later c in (d, let_through ∷ others)

abbrev all_false : List ℕ → List Bool
all_false [] = []
all_false (n ∷ ns) = false ∷ all_false ns

probing_refuses :
    (times : List ℕ) (b : CircuitBreaker)
    → b.state ≡ half_open
    → b.probe_in_flight ≡ true
    → begin_all times b ≡ (b, all_false times)
unfolding begin_all begin_call
probing_refuses [] b h p = refl
probing_refuses (now ∷ later) b h p =
    let same : begin_call now b ≡ (b, false) = ground arith in
    ground (arith, probing_refuses later b h p)

probe_begins :
    (now : ℕ) (b : CircuitBreaker)
    → b.state ≡ open_state
    → b.last_failure_time + b.reset_timeout_ms ≤ now
    → let (c, let_through) = begin_call now b in
      (c.state ≡ half_open) × (c.probe_in_flight ≡ true) × (let_through ≡ true)
unfolding begin_call
probe_begins now b o due = ground arith

-- Once the reset time has passed, an open circuit lets exactly one call through, the probe: every
-- call that begins while the probe waits is refused.
pub one_probe :
    (now : ℕ) (later : List ℕ) (b : CircuitBreaker)
    → b.state ≡ open_state
    → b.last_failure_time + b.reset_timeout_ms ≤ now
    → (begin_all (now ∷ later) b).1 ≡ true ∷ all_false later
unfolding begin_all
one_probe now later b o due =
    let (h, p, t) = probe_begins now b o due in
    rw (t, probing_refuses later (begin_call now b).0 h p)

-- A probe that succeeds closes the circuit and forgets the failures. A probe that fails with a
-- counted failure opens it again, and the reset time runs from then.
pub probe_decides :
    (now ended : ℕ) (status : Option ℕ) (b : CircuitBreaker)
    → Inv b
    → b.state ≡ open_state
    → b.last_failure_time + b.reset_timeout_ms ≤ now
    → Counts status
    → ((execute now ended success b).0.state ≡ closed)
      × ((execute now ended success b).0.failure_count ≡ 0)
      × ((execute now ended (failure status) b).0.state ≡ open_state)
      × ((execute now ended (failure status) b).0.last_failure_time ≡ ended)
unfolding execute
probe_decides now ended status b v o due counts = ground arith

probe_kept :
    (now ended status : ℕ) (b : CircuitBreaker)
    → b.state ≡ open_state
    → b.last_failure_time + b.reset_timeout_ms ≤ now
    → 400 ≤ status
    → status < 500
    → let c = (execute now ended (failure (some status)) b).0 in
      (c.state ≡ half_open) × (c.probe_in_flight ≡ true)
unfolding execute
probe_kept now ended status b o due h k = ground arith

-- A probe that is answered with a client error, 400 to 499, is never taken back: whatever calls
-- come later, and however late, all of them are refused.
pub client_error_probe_sticks :
    (now ended status : ℕ) (later : List ℕ) (b : CircuitBreaker)
    → b.state ≡ open_state
    → b.last_failure_time + b.reset_timeout_ms ≤ now
    → 400 ≤ status
    → status < 500
    → (begin_all later (execute now ended (failure (some status)) b).0).1 ≡ all_false later
client_error_probe_sticks now ended status later b o due h k =
    let (half, probe) = probe_kept now ended status b o due h k in
    ap (λ r. r.1) (probing_refuses later (execute now ended (failure (some status)) b).0 half probe)
