-- ===== src/Claims/Transaction/Attempts.antt =====
-- How an attempt that is not aborted ends, and what a transaction leaves.
use parashield_backend.Base.{
  ℕ, zero, suc, ◌+◌, ◌≡◌, refl, inl, inr, Option, none, Bool-cases, Option-cases,
}
use parashield_backend.Claims.Transaction.{
  DatabaseError, is_serialization_failure, Callback, commit, rollback, Result, ok, aborted, threw,
  retry_from, financial_transaction,
}

module _ {S A E : Type 0} where
  -- What a result and the state after it say of the callback and the state before.
  abbrev pub Atomic : (S → Callback S A E) → S → Result A E → S → Type 0
  Atomic run s (ok a) t = run s ≡ commit a t
  Atomic run s (aborted e) t = t ≡ s
  Atomic run s (threw e) t = (run s ≡ rollback e) × (t ≡ s)

  -- How a callback that was not aborted ends.
  abbrev pub outcome : Callback S A E → S → Result A E × S
  outcome (commit a t) s = (ok a, t)
  outcome (rollback e) s = (threw e, s)

  outcome-Atomic :
      (run : S → Callback S A E) (s : S) (c : Callback S A E)
      → run s ≡ c
      → Atomic run s (outcome c s).0 (outcome c s).1
  outcome-Atomic run s (commit a t) e = e
  outcome-Atomic run s (rollback f) e = (e, refl)

  pub unaborted :
      (left n : ℕ) (aborts : ℕ → Option DatabaseError) (run : S → Callback S A E) (s : S)
      → aborts n ≡ none
      → retry_from left n aborts run s ≡ ((outcome (run s) s).0, (outcome (run s) s).1, n)
  unfolding retry_from
  unaborted zero n aborts run s free = rw (free, retry_from) (by_cases (run s))
    where
      by_cases :
          (c : Callback S A E)
          → ◌≡◌ {A = Result A E × S × ℕ}
              (elim c [ commit a t ↦ (ok a, t, n) | rollback e ↦ (threw e, s, n) ])
              ((outcome c s).0, (outcome c s).1, n)
      by_cases (commit a t) = refl
      by_cases (rollback e) = refl
  unaborted (suc left) n aborts run s free = rw (free, retry_from) (by_cases (run s))
    where
      by_cases :
          (c : Callback S A E)
          → ◌≡◌ {A = Result A E × S × ℕ}
              (elim c [ commit a t ↦ (ok a, t, n) | rollback e ↦ (threw e, s, n) ])
              ((outcome c s).0, (outcome c s).1, n)
      by_cases (commit a t) = refl
      by_cases (rollback e) = refl

  retry_from-Atomic :
      (left n : ℕ) (aborts : ℕ → Option DatabaseError) (run : S → Callback S A E) (s : S)
      → Atomic run s (retry_from left n aborts run s).0 (retry_from left n aborts run s).1
  unfolding retry_from
  retry_from-Atomic zero n aborts run s = elim (Option-cases (aborts n)) [
    | inl free ↦ rw (unaborted zero n aborts run s free) (outcome-Atomic run s (run s) refl)
    | inr (e, at) ↦ rw (at, retry_from) refl
  ]
  retry_from-Atomic (suc left) n aborts run s = elim (Option-cases (aborts n)) [
    | inl free ↦ rw (unaborted (suc left) n aborts run s free) (outcome-Atomic run s (run s) refl)
    | inr (e, at) ↦ elim (Bool-cases (is_serialization_failure e)) [
      | inl again ↦ rw (at, retry_from, again) (retry_from-Atomic left (n + 1) aborts run s)
      | inr final ↦ rw (at, retry_from, final) refl
    ]
  ]

  -- A transaction that returns a value has committed its callback's writes, run on the state before.
  -- One that is aborted or whose callback throws leaves the state as it was.
  pub transaction-Atomic :
      (aborts : ℕ → Option DatabaseError) (run : S → Callback S A E) (s : S)
      → Atomic run s (financial_transaction aborts run s).0 (financial_transaction aborts run s).1
  unfolding financial_transaction
  transaction-Atomic aborts run s = retry_from-Atomic 2 1 aborts run s

  -- A first attempt that is not aborted is the transaction.
  pub first_decides :
      (aborts : ℕ → Option DatabaseError) (run : S → Callback S A E) (s : S)
      → aborts 1 ≡ none
      → financial_transaction aborts run s ≡ outcome (run s) s
  unfolding financial_transaction
  first_decides aborts run s free = rw (unaborted 2 1 aborts run s free)
