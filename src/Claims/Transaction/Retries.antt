-- ===== src/Claims/Transaction/Retries.antt =====
-- The retries of src/prisma/financial-transaction.ts: how often, after which errors, and what results.
use mathlib.Core.Path.{subst}
use parashield_backend.Base.{
  ℕ, zero, suc, ◌+◌, ◌≤◌, ◌≡◌, refl, sym, ◌∙◌, inl, inr, ◌⊎◌, Bool, true, false, ◌&&◌, ◌||◌, Option,
  none, some, ◌==◌, and_parts, Bool-cases, Option-cases, arith,
}
use parashield_backend.Claims.Transaction.{
  DatabaseError, known_request_error, unknown_request_error, other_error, is_serialization_failure,
  Callback, Result, aborted, retry_from, financial_transaction,
}
use parashield_backend.Claims.Transaction.Attempts.{outcome, unaborted}

-- The errors that say that a concurrent transaction has won.
pub data IsConflict : DatabaseError → Type 0 where
  p2034 : (mentions : Bool) → IsConflict (known_request_error 2034 mentions)
  p2010 : IsConflict (known_request_error 2010 true)
  unknown_request : IsConflict (unknown_request_error true)

or_false : (a b : Bool) → a ≡ false → (a || b) ≡ b
or_false a b h = rw h refl

IsConflict-is_serialization_failure :
    (e : DatabaseError) → is_serialization_failure e ≡ true → IsConflict e
unfolding is_serialization_failure
IsConflict-is_serialization_failure (known_request_error code mentions) h =
    elim (Bool-cases (code == 2034)) [
      | inl e ↦
          let same : code ≡ 2034 = ground arith in
          subst (λ c. IsConflict (known_request_error c mentions)) (sym same) (p2034 mentions)
      | inr e ↦
          let other : (code == 2010 && mentions) ≡ true = sym (or_false _ _ e) ∙ h in
          let (named, does) = and_parts (code == 2010) mentions other in
          let same : code ≡ 2010 = ground arith in
          subst (λ c. IsConflict (known_request_error c mentions)) (sym same)
            (subst (λ b. IsConflict (known_request_error 2010 b)) (sym does) p2010)
    ]
IsConflict-is_serialization_failure (unknown_request_error true) h = unknown_request
IsConflict-is_serialization_failure (unknown_request_error false) h = absurd cc
IsConflict-is_serialization_failure other_error h = absurd cc

no-IsConflict : (e : DatabaseError) → is_serialization_failure e ≡ false → ¬ (IsConflict e)
unfolding is_serialization_failure
no-IsConflict e h (p2034 mentions) = cc
no-IsConflict e h p2010 = cc
no-IsConflict e h unknown_request = cc

-- The attempts from one to another, each of them but the last lost to a conflict.
pub data Retries (aborts : ℕ → Option DatabaseError) (k : ℕ) : ℕ → Type 0 where
  last : Retries aborts k k
  again :
      (n : ℕ) (e : DatabaseError)
      → aborts n ≡ some e
      → IsConflict e
      → Retries aborts k (n + 1)
      → Retries aborts k n

module _ {S A E : Type 0} where
  -- How the attempt ends that decides, where `limit` is the last that is made.
  abbrev pub Decides :
      (ℕ → Option DatabaseError) → (S → Callback S A E) → S → ℕ → ℕ → Result A E × S → Type 0
  Decides aborts run s limit k o =
      ((aborts k ≡ none) × (o ≡ outcome (run s) s))
      ⊎ ((e : DatabaseError) × (aborts k ≡ some e)
          × (o ≡ (aborted e, s))
          × ((k ≡ limit) ⊎ (¬ (IsConflict e))))

  pub Tried :
      (ℕ → Option DatabaseError) → (S → Callback S A E) → S → ℕ → ℕ → Result A E × S → Type 0
  Tried aborts run s limit n o =
      (k : ℕ) × Retries aborts k n × (k ≤ limit) × Decides aborts run s limit k o

  retry_from-Tried :
      (left n limit : ℕ) (aborts : ℕ → Option DatabaseError) (run : S → Callback S A E) (s : S)
      → n + left ≡ limit
      → Tried aborts run s limit n
          ((retry_from left n aborts run s).0, (retry_from left n aborts run s).1)
  unfolding retry_from Tried
  retry_from-Tried zero n limit aborts run s h = elim (Option-cases (aborts n)) [
    | inl free ↦ (n, last, omega arith, inl (free, rw (unaborted zero n aborts run s free) refl))
    | inr (e, at) ↦ (n, last, omega arith, inr (e, at, rw (at, retry_from) refl, inl (omega arith)))
  ]
  retry_from-Tried (suc left) n limit aborts run s h = elim (Option-cases (aborts n)) [
    | inl free ↦
        (n, last, omega arith, inl (free, rw (unaborted (suc left) n aborts run s free) refl))
    | inr (e, at) ↦ elim (Bool-cases (is_serialization_failure e)) [
      | inl conflict ↦
          let (k, retries, few, decides) =
            retry_from-Tried left (n + 1) limit aborts run s (omega arith) in
          rw (at, retry_from, conflict)
            (k, again n e at (IsConflict-is_serialization_failure e conflict) retries, few, decides)
      | inr final ↦ (
        n,
        last,
        omega arith,
        inr (e, at, rw (at, retry_from, final) refl, inr (no-IsConflict e final)),
      )
    ]
  ]

  -- A financial transaction makes at most three attempts, each but the last aborted by a conflict
  -- (P2034, or P2010 or an unknown request error whose message names one). Where the last attempt is
  -- not aborted, the callback's outcome on the state before is the result: its writes and its value,
  -- or its exception with no writes. Otherwise the error surfaces with no writes, and it is no
  -- conflict or the attempt was the third.
  pub transaction_tried :
      (aborts : ℕ → Option DatabaseError) (run : S → Callback S A E) (s : S)
      → Tried aborts run s 3 1 (financial_transaction aborts run s)
  unfolding financial_transaction
  transaction_tried aborts run s = retry_from-Tried 2 1 3 aborts run s refl
