-- ===== src/Breaker.antt =====
-- The class CircuitBreaker of src/oracle/oracle.service.ts. `Date.now()` is an argument, milliseconds
-- since the epoch. A call of `execute` is two steps, before and after it awaits its function, so that
-- other calls can come between.
pub mod Opening
pub mod Probe
use parashield_backend.Base.{
  ℕ, ◌+◌, Bool, true, false, ◌&&◌, ◌||◌, Option, none, some, ltb, leb, if◌then◌else◌,
}

pub data CircuitState : Type 0 where
  closed open_state half_open : CircuitState

abbrev pub is_open : CircuitState → Bool
is_open open_state = true
is_open s = false

abbrev pub is_half_open : CircuitState → Bool
is_half_open half_open = true
is_half_open s = false

pub record CircuitBreaker : Type 0 where
  pub state : CircuitState
  pub failure_count : ℕ
  pub last_failure_time : ℕ
  pub probe_in_flight : Bool
  pub failure_threshold : ℕ
  pub reset_timeout_ms : ℕ

-- The constructor.
unfoldable pub new : ℕ → ℕ → CircuitBreaker
new failure_threshold reset_timeout_ms = record {
  state = closed;
  failure_count = 0;
  last_failure_time = 0;
  probe_in_flight = false;
  failure_threshold = failure_threshold;
  reset_timeout_ms = reset_timeout_ms;
}

-- The state that `getState` leaves; what it returns is its field.
unfoldable pub get_state : ℕ → CircuitBreaker → CircuitBreaker
get_state now b =
    if is_open b.state && leb (b.last_failure_time + b.reset_timeout_ms) now
    then record b { state = half_open; probe_in_flight = false }
    else b

-- The part of `execute` before `await fn()`: `true` lets the call through, `false` is the
-- ServiceUnavailableException.
unfoldable pub begin_call : ℕ → CircuitBreaker → CircuitBreaker × Bool
unfolding get_state
begin_call now b =
    let c = get_state now b in
    if is_open c.state
    then (c, false)
    else if is_half_open c.state
    then (if c.probe_in_flight then (c, false) else (record c { probe_in_flight = true }, true))
    else (c, true)

unfoldable pub on_success : CircuitBreaker → CircuitBreaker
on_success b = record b { probe_in_flight = false; failure_count = 0; state = closed }

-- `error.response.status`, where it is a number
unfoldable pub is_client_error : Option ℕ → Bool
is_client_error none = false
is_client_error (some status) = leb 400 status && ltb status 500

unfoldable pub on_failure : ℕ → Option ℕ → CircuitBreaker → CircuitBreaker
unfolding is_client_error
on_failure now status b =
    let failures = b.failure_count + 1 in
    let c = record b { failure_count = failures; last_failure_time = now } in
    if is_client_error status
    then b
    else if leb b.failure_threshold failures
    then record c { state = open_state }
    else c

-- How an awaited function ends.
pub data Answer : Type 0 where
  success : Answer
  failure : Option ℕ → Answer

unfoldable pub end_call : ℕ → Answer → CircuitBreaker → CircuitBreaker
unfolding on_success on_failure
end_call now success b = on_success b
end_call now (failure status) b = on_failure now status b

-- A call with nothing in between; the result says whether the function was reached.
unfoldable pub execute : ℕ → ℕ → Answer → CircuitBreaker → CircuitBreaker × Bool
unfolding begin_call end_call
execute started ended answer b =
    let (c, let_through) = begin_call started b in
    if let_through then (end_call ended answer c, true) else (c, false)
