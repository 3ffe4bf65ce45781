-- ===== src/Horizon/Retry.antt =====
-- How many attempts a Horizon call makes, and when it gives up.
use parashield_backend.Base.{
  ℕ, zero, suc, ◌+◌, ◌≤◌, ◌<◌, ◌≡◌, refl, ◌⊎◌, inl, inr, true, false, arith, le_or_lt, Bool-cases,
  sym, ◌∙◌, if◌then◌else◌,
}
use mathlib.Core.Bool.{false≢true}
use parashield_backend.Horizon.{
  HorizonFailure, is_timeout_error, is_retryable_horizon_error, Attempt, answered, failed, Outcome,
  result, timed_out, rethrown, unavailable, attempt_from,
}

timeout_is_retryable :
    (e : HorizonFailure) → is_timeout_error e ≡ true → is_retryable_horizon_error e ≡ true
unfolding is_retryable_horizon_error
timeout_is_retryable e h = ground arith

-- Before the attempt that ends the loop every attempt met a retryable error.
abbrev pub Retried : (ℕ → Attempt) → ℕ → ℕ → Type 0
Retried answers first last =
    (k : ℕ)
    → first ≤ k
    → k < last
    → (e : HorizonFailure) × (answers k ≡ failed e) × (is_retryable_horizon_error e ≡ true)

-- What ended the loop at attempt `n`, when `last` is the last one allowed.
abbrev pub Ends : (ℕ → Attempt) → ℕ → ℕ → Outcome → Type 0
Ends answers last n result = answers n ≡ answered
Ends answers last n unavailable = ⊥
Ends answers last n (timed_out m) =
    (m ≡ n)
    × (n ≡ last)
    × ((e : HorizonFailure) × (answers n ≡ failed e) × (is_timeout_error e ≡ true))
Ends answers last n (rethrown e) =
    (answers n ≡ failed e)
    × (is_timeout_error e ≡ false)
    × ((is_retryable_horizon_error e ≡ false) ⊎ (n ≡ last))

abbrev pub Summary : (ℕ → Attempt) → ℕ → ℕ → Outcome × ℕ → Type 0
Summary answers first last (outcome, n) =
    (first ≤ n) × (n ≤ last) × Retried answers first n × Ends answers last n outcome

Attempt-cases : (a : Attempt) → (a ≡ answered) ⊎ ((e : HorizonFailure) × (a ≡ failed e))
Attempt-cases answered = inl refl
Attempt-cases (failed e) = inr (e, refl)

none_before : (answers : ℕ → Attempt) (n : ℕ) → Retried answers n n
none_before answers n k low high = absurd (omega arith)

-- The loop stops with `e` at attempt `n`.
stops_with : HorizonFailure → ℕ → Outcome × ℕ
stops_with e n = (if is_timeout_error e then timed_out n else rethrown e, n)

stops-Summary :
    (answers : ℕ → Attempt) (last n : ℕ) (e : HorizonFailure)
    → answers n ≡ failed e
    → n ≤ last
    → (is_retryable_horizon_error e ≡ false) ⊎ (n ≡ last)
    → Summary answers n last (stops_with e n)
unfolding stops_with
stops-Summary answers last n e at le why = elim (Bool-cases (is_timeout_error e)) [
  | inl t ↦ rw t (omega arith, le, none_before answers n, (refl, is_last t why, (e, at, t)))
  | inr f ↦ rw f (omega arith, le, none_before answers n, (at, f, why))
]
  where
    is_last :
        is_timeout_error e ≡ true → (is_retryable_horizon_error e ≡ false) ⊎ (n ≡ last) → n ≡ last
    is_last t (inl r) = absurd (false≢true (sym r ∙ timeout_is_retryable e t))
    is_last t (inr l) = l

retry-Summary :
    (answers : ℕ → Attempt) (n last : ℕ) (e : HorizonFailure) (r : Outcome × ℕ)
    → answers n ≡ failed e
    → is_retryable_horizon_error e ≡ true
    → Summary answers (n + 1) last r
    → Summary answers n last r
retry-Summary answers n last e (outcome, m) at retryable (low, high, retried, ends) =
    (omega arith, high, earlier, ends)
  where
    earlier : Retried answers n m
    earlier k from below = elim (le_or_lt (n + 1) k) [
      | inl later ↦ retried k later below
      | inr first ↦ let same : k ≡ n = omega arith in rw same (e, at, retryable)
    ]

shift : (n left : ℕ) → n + suc left ≡ n + 1 + left
shift n left = omega arith

-- The loop makes at least one attempt and at most those allowed. It goes on only over retryable
-- errors, and stops with a result, with a timeout on the last attempt, or with an error that is no
-- timeout and is not retryable or came last.
pub attempts_bounded :
    (left attempt : ℕ) (answers : ℕ → Attempt)
    → Summary answers attempt (attempt + left) (attempt_from left attempt answers)
unfolding attempt_from stops_with
attempts_bounded zero attempt answers = elim (Attempt-cases (answers attempt)) [
  | inl a ↦ rw (a, attempt_from) (omega arith, omega arith, none_before answers attempt, a)
  | inr (e, a) ↦
      rw (a, attempt_from)
        (stops-Summary answers (attempt + 0) attempt e a (omega arith) (inr (omega arith)))
]
attempts_bounded (suc left) attempt answers = elim (Attempt-cases (answers attempt)) [
  | inl a ↦ rw (a, attempt_from) (omega arith, omega arith, none_before answers attempt, a)
  | inr (e, a) ↦ elim (Bool-cases (is_retryable_horizon_error e)) [
    | inl r ↦
        let again : attempt_from (suc left) attempt answers
            ≡ attempt_from left (attempt + 1) answers =
          rw (a, attempt_from, r) refl in
        let rest : Summary answers (attempt + 1) (attempt + suc left)
            (attempt_from left (attempt + 1) answers) =
          rw (shift attempt left) (attempts_bounded left (attempt + 1) answers) in
        rw again (
          retry-Summary answers attempt (attempt + suc left) e
            (attempt_from left (attempt + 1) answers) a r rest)
    | inr r ↦
        let stops : attempt_from (suc left) attempt answers ≡ stops_with e attempt =
          rw (a, attempt_from, r) refl in
        rw stops (stops-Summary answers (attempt + suc left) attempt e a (omega arith) (inl r))
  ]
]
