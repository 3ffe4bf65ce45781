-- ===== src/Horizon.antt =====
-- src/stellar/horizon-resilience.ts and `callHorizon` of src/stellar/stellar.service.ts. `Date.now()`
-- is an argument, and what the awaited function does on each attempt is a list.
pub mod Retry
pub mod Circuit
use parashield_backend.Base.{
  ℕ, zero, suc, ◌+◌, ◌-◌, Bool, true, false, not, ◌&&◌, ◌||◌, Option, none, some, List, [], ◌∷◌,
  ltb, leb, ◌==◌, if◌then◌else◌,
}

-- `err.code`; `other_code` is any string that the module does not name, or none.
pub data Code : Type 0 where
  econnaborted econnreset econnrefused etimedout esockettimedout eai_again epipe other_code : Code

abbrev is_timeout_code : Code → Bool
is_timeout_code econnaborted = true
is_timeout_code etimedout = true
is_timeout_code esockettimedout = true
is_timeout_code c = false

-- NETWORK_ERROR_CODES
abbrev is_network_code : Code → Bool
is_network_code other_code = false
is_network_code c = true

-- What the two classifications read of an error.
pub record HorizonFailure : Type 0 where
  -- `err instanceof HorizonTimeoutError`
  pub horizon_timeout : Bool
  -- `getStatus()` of an HttpException
  pub http_status : Option ℕ
  pub code : Code
  -- `/timed? ?out/i` matches the message
  pub says_timed_out : Bool
  -- `err.response.status`
  pub response_status : Option ℕ
  -- `err.status`
  pub own_status : Option ℕ

abbrev status_is : Option ℕ → ℕ → Bool
status_is none s = false
status_is (some t) s = t == s

abbrev status_of : HorizonFailure → Option ℕ
status_of e = elim e.response_status [ some s ↦ some s | none ↦ e.own_status ]

unfoldable pub is_timeout_error : HorizonFailure → Bool
is_timeout_error e =
    e.horizon_timeout || status_is e.http_status 504 || is_timeout_code e.code || e.says_timed_out

abbrev retryable_status : Option ℕ → Code → Bool
retryable_status (some s) c = s == 429 || leb 500 s
retryable_status none c = is_network_code c

unfoldable pub is_retryable_horizon_error : HorizonFailure → Bool
unfolding is_timeout_error
is_retryable_horizon_error e =
    if is_timeout_error e then true else retryable_status (status_of e) e.code

pub record HorizonCircuitBreaker : Type 0 where
  pub consecutive_timeouts : ℕ
  pub opened_at : Option ℕ
  pub probe_in_flight : Bool
  pub threshold : ℕ
  pub reset_timeout_ms : ℕ

-- `false` is the HorizonUnavailableError.
unfoldable pub acquire : ℕ → HorizonCircuitBreaker → HorizonCircuitBreaker × Bool
acquire now b = elim b.opened_at [
  | none ↦ (b, true)
  | some at ↦
      if ltb now (at + b.reset_timeout_ms) || b.probe_in_flight
      then (b, false)
      else (record b { probe_in_flight = true }, true)
]

unfoldable pub record_response : HorizonCircuitBreaker → HorizonCircuitBreaker
record_response b = record b { consecutive_timeouts = 0; opened_at = none; probe_in_flight = false }

abbrev pub is_some : Option ℕ → Bool
is_some none = false
is_some (some n) = true

unfoldable pub record_timeout : ℕ → HorizonCircuitBreaker → HorizonCircuitBreaker
record_timeout now b =
    let timeouts = b.consecutive_timeouts + 1 in
    let c = record b { probe_in_flight = false; consecutive_timeouts = timeouts } in
    if is_some b.opened_at || leb b.threshold timeouts then record c { opened_at = some now } else c

-- One attempt, and how a whole call ends.
pub data Attempt : Type 0 where
  answered : Attempt
  failed : HorizonFailure → Attempt

pub data Outcome : Type 0 where
  result : Outcome
  unavailable : Outcome
  -- HorizonTimeoutError with the number of attempts
  timed_out : ℕ → Outcome
  rethrown : HorizonFailure → Outcome

-- The loop of `callHorizon` from `attempt` on, with the attempts that are left after it; `answers`
-- says what each attempt meets. The result tells how many attempts were made.
unfoldable pub attempt_from : ℕ → ℕ → (ℕ → Attempt) → Outcome × ℕ
attempt_from zero attempt answers = elim (answers attempt) [
  | answered ↦ (result, attempt)
  | failed e ↦ (if is_timeout_error e then timed_out attempt else rethrown e, attempt)
]
attempt_from (suc left) attempt answers =
    let again = attempt_from left (attempt + 1) answers in
    elim (answers attempt) [
      | answered ↦ (result, attempt)
      | failed e ↦
          if not (is_retryable_horizon_error e)
          then (if is_timeout_error e then timed_out attempt else rethrown e, attempt)
          else again
    ]

-- What the outcome tells the breaker.
abbrev settle : ℕ → Outcome → HorizonCircuitBreaker → HorizonCircuitBreaker
settle now (timed_out n) b = record_timeout now b
settle now o b = record_response b

-- `started` is the time of `acquire`, `ended` that of the last answer.
unfoldable pub call_horizon :
    ℕ → ℕ → ℕ → (ℕ → Attempt) → HorizonCircuitBreaker → HorizonCircuitBreaker × Outcome × ℕ
unfolding acquire attempt_from record_response record_timeout
call_horizon started ended max_attempts answers b =
    let (c, admitted) = acquire started b in
    let (outcome, attempts) = attempt_from (max_attempts - 1) 1 answers in
    if admitted then (settle ended outcome c, outcome, attempts) else (c, unavailable, 0)
