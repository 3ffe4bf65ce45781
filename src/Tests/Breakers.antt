-- ===== src/Tests/Breakers.antt =====
-- Witnesses for Breaker and Horizon: a breaker of three failures and one minute.
use Prim.{absurd}
use parashield_backend.Base.{
  ℕ, zero, suc, ◌+◌, ◌<◌, ◌≡◌, refl, arith, false, Option, none, some, List, [], ◌∷◌,
}
use parashield_backend.Breaker.{
  closed, open_state, CircuitBreaker, execute, failure, is_client_error,
}
use parashield_backend.Breaker.Opening.{Inv, fail_all, opens_at_threshold}
use parashield_backend.Breaker.Probe.{begin_all, client_error_probe_sticks}
use parashield_backend.Horizon.{
  HorizonCircuitBreaker, HorizonFailure, econnaborted, other_code, Attempt, answered, failed,
}
use parashield_backend.Horizon.Circuit as Circuit
use parashield_backend.Horizon.Circuit.{Call, run_calls, circuit_recovers}

abbrev fresh : CircuitBreaker
fresh = record {
  state = closed;
  failure_count = 0;
  last_failure_time = 0;
  probe_in_flight = false;
  failure_threshold = 3;
  reset_timeout_ms = 60000;
}

abbrev tripped : CircuitBreaker
tripped = record fresh { state = open_state; failure_count = 3; last_failure_time = 1000 }

abbrev failures : List (ℕ × Option ℕ)
failures = (10, none) ∷ (20, some 503) ∷ []

opens_at_threshold_example :
    (0 + 2 < 3
      → ((fail_all failures fresh).state ≡ closed)
        × ((fail_all failures fresh).failure_count ≡ 0 + 2))
    × (0 < 3 → 0 + 2 ≡ 3 → (fail_all failures fresh).state ≡ open_state)
unfolding is_client_error
opens_at_threshold_example = opens_at_threshold failures fresh (refl, (refl, tt)) refl

tripped-Inv : Inv tripped
tripped-Inv = record { enough = λ n. omega arith; fewer = λ e. cc }

client_error_probe_sticks_example :
    (begin_all (100000 ∷ 999999 ∷ []) (execute 70000 70100 (failure (some 404)) tripped).0).1
    ≡ false ∷ false ∷ []
client_error_probe_sticks_example =
    client_error_probe_sticks 70000 70100 404 (100000 ∷ 999999 ∷ []) tripped refl (omega arith)
      (omega arith) (omega arith)

abbrev server_error : HorizonFailure
server_error = record {
  horizon_timeout = false;
  http_status = none;
  code = other_code;
  says_timed_out = false;
  response_status = some 503;
  own_status = none;
}

abbrev timeout : HorizonFailure
timeout = record server_error { code = econnaborted; response_status = none }

abbrev answers : ℕ → Attempt
answers zero = answered
answers (suc zero) = failed server_error
answers (suc (suc n)) = failed timeout

abbrev horizon : HorizonCircuitBreaker
horizon = record {
  consecutive_timeouts = 0;
  opened_at = none;
  probe_in_flight = false;
  threshold = 2;
  reset_timeout_ms = 30000;
}

abbrev calls : List Call
calls =
    record { started = 10; ended = 20; max_attempts = 3; answers = answers }
    ∷ record { started = 30; ended = 40; max_attempts = 3; answers = answers }
    ∷ []

horizon-Inv : Circuit.Inv horizon
horizon-Inv = record { idle = refl; counted = λ n. absurd (n refl); below = λ e. omega arith }
