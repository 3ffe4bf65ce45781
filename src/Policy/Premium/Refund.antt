-- ===== src/Policy/Premium/Refund.antt =====
-- What calculateProRatedRefund promises.
use native.Mathlib.Nat.{
  div-le_of_le-mul, mul-le-mul_left, mul-div_left, le_trans, le-div_iff_mul-le, div-mul-le_self,
  lt-div-mul-add, mul_comm, mul-zero, zero-div,
}
use parashield_backend.Base.{
  ℕ, ◌+◌, ◌-◌, ◌*◌, ◌/◌, ◌≤◌, ◌<◌, ◌≡◌, ◌∙◌, ap, inl, inr, arith, ltb, if◌then◌else◌, le_or_lt,
}
use parashield_backend.Policy.Premium.{refund_stroops}

capped : ℕ → ℕ → ℕ → ℕ
capped start end now = if ltb (end - start) (end - now) then end - start else end - now

refund_running : (p s e n : ℕ) → s < e → refund_stroops p s e n ≡ p * capped s e n / (e - s)
unfolding refund_stroops capped
refund_running p s e n h = ground arith

capped-le : (s e n : ℕ) → capped s e n ≤ e - s
unfolding capped
capped-le s e n = ground arith

capped_mono : (s e m n : ℕ) → m ≤ n → capped s e n ≤ capped s e m
unfolding capped
capped_mono s e m n h = ground arith

div_mono : (a b k : ℕ) → 0 < k → a ≤ b → a / k ≤ b / k
div_mono a b k h le = (le-div_iff_mul-le h).1 (le_trans (div-mul-le_self a k) le)

refund-le : (p s e n : ℕ) → s < e → refund_stroops p s e n ≤ p
refund-le p s e n h =
    rw (refund_running p s e n h)
      (div-le_of_le-mul (e - s) (rw (mul_comm (e - s) p) (mul-le-mul_left p (capped-le s e n))))

refund_empty : (p s e n : ℕ) → e ≤ s → refund_stroops p s e n ≡ 0
unfolding refund_stroops
refund_empty p s e n h = ground arith

whole : (p s e n : ℕ) → s < e → n ≤ s → p * capped s e n / (e - s) ≡ p
unfolding capped
whole p s e n h k =
    let same : capped s e n ≡ e - s = ground arith in
    rw same (mul-div_left p {n = e - s} (omega arith))

nothing : (p s e n : ℕ) → s < e → e ≤ n → p * capped s e n / (e - s) ≡ 0
unfolding capped
nothing p s e n h k =
    let none_left : capped s e n ≡ 0 = ground arith in rw (none_left, mul-zero) (zero-div (e - s))

-- The refund is never more than the premium. It is all of it while coverage has not begun, nothing
-- from the end on, and nothing for a period that is empty or reversed.
pub refund_bounds :
    (p s e n : ℕ)
    → (refund_stroops p s e n ≤ p)
      × (s < e → n ≤ s → refund_stroops p s e n ≡ p)
      × (e ≤ n → refund_stroops p s e n ≡ 0)
      × (e ≤ s → refund_stroops p s e n ≡ 0)
refund_bounds p s e n = elim (le_or_lt e s) [
  | inl empty ↦ (
    rw (refund_empty p s e n empty) (omega arith),
    λ h k. absurd (omega arith),
    λ h. refund_empty p s e n empty,
    λ h. refund_empty p s e n empty,
  )
  | inr runs ↦ (
    refund-le p s e n runs,
    λ h k. refund_running p s e n runs ∙ whole p s e n runs k,
    λ k. refund_running p s e n runs ∙ nothing p s e n runs k,
    λ k. absurd (omega arith),
  )
]

-- A later cancellation never refunds more.
pub refund_antitone : (p s e m n : ℕ) → m ≤ n → refund_stroops p s e n ≤ refund_stroops p s e m
refund_antitone p s e m n h = elim (le_or_lt e s) [
  | inl empty ↦ rw (refund_empty p s e n empty) (omega arith)
  | inr runs ↦
      rw (refund_running p s e n runs, refund_running p s e m runs)
        (div_mono _ _ (e - s) (omega arith) (mul-le-mul_left p (capped_mono s e m n h)))
]

add_mul_one : (q k : ℕ) → (q + 1) * k ≡ q * k + k
add_mul_one q k = omega arith

-- While coverage runs, the refund is the premium's share of the time left, rounded down to the
-- stroop.
pub refund_is_floor :
    (p s e n : ℕ)
    → s ≤ n
    → n < e
    → (refund_stroops p s e n * (e - s) ≤ p * (e - n))
      × (p * (e - n) < (refund_stroops p s e n + 1) * (e - s))
refund_is_floor p s e n h k =
    let left : capped s e n ≡ e - n = unfold capped in ground arith in
    let at : refund_stroops p s e n ≡ p * (e - n) / (e - s) =
      refund_running p s e n (omega arith) ∙ ap (λ x. p * x / (e - s)) left in
    rw at (
      div-mul-le_self (p * (e - n)) (e - s),
      rw (add_mul_one _ (e - s)) (lt-div-mul-add {a = p * (e - n)} {b = e - s} (omega arith)),
    )
