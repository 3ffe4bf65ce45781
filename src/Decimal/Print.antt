-- ===== src/Decimal/Print.antt =====
-- The digits of a number read back as the number, at the length that padding expects.
use native.Mathlib.Nat.{pow-suc}
use parashield_backend.Base.{
  ℕ, zero, suc, ◌+◌, ◌-◌, ◌*◌, ◌/◌, ◌%◌, ◌^◌, ◌≤◌, ◌<◌, ◌≡◌, refl, Bool, true, false, List, [], ◌∷◌,
  ◌++◌, length, all, length-append, ltb, arith, le_or_lt, inl, inr,
}
use parashield_backend.Decimal.Digits.{is_digit, value_from, value, digits_from, to_string}

pub value_from-append :
    (acc : ℕ) (xs ys : List ℕ) → value_from acc (xs ++ ys) ≡ value_from (value_from acc xs) ys
value_from-append acc [] ys = refl
value_from-append acc (x ∷ xs) ys = value_from-append (acc * 10 + (x - b'0')) xs ys

value-digits_from : (f n : ℕ) → n < f → value_from 0 (digits_from f n) ≡ n
unfolding digits_from
value-digits_from zero n h = elim h [ ]
value-digits_from (suc f) n h = elim (le_or_lt 10 n) [
  | inl big ↦
      let last : ltb n 10 ≡ false = ground arith in
      rw
        (
          last,
          value_from-append 0 (digits_from f (n / 10)) ((b'0' + n % 10) ∷ []),
          value-digits_from f (n / 10) (omega arith),
        )
        (omega arith)
  | inr small ↦ ground arith
]

-- `BigInt(n.toString())` is `n`.
pub value-to_string : (n : ℕ) → value (to_string n) ≡ n
unfolding value to_string
value-to_string n = value-digits_from (suc n) n (omega arith)

pub all-append :
    (p : ℕ → Bool) (xs ys : List ℕ) → all p xs ≡ true → all p ys ≡ true → all p (xs ++ ys) ≡ true
all-append p [] ys h k = k
all-append p (x ∷ xs) ys h k = ground (arith, all-append p xs ys)

digits_from-digits : (f n : ℕ) → all is_digit (digits_from f n) ≡ true
unfolding digits_from
digits_from-digits zero n = refl
digits_from-digits (suc f) n = elim (le_or_lt 10 n) [
  | inl big ↦
      let last : ltb n 10 ≡ false = ground arith in
      rw last (
        all-append is_digit (digits_from f (n / 10)) _ (digits_from-digits f (n / 10))
          (ground arith))
  | inr small ↦ ground arith
]

pub to_string-digits : (n : ℕ) → all is_digit (to_string n) ≡ true
unfolding to_string
to_string-digits n = digits_from-digits (suc n) n

pub length-digits_from : (k f n : ℕ) → n < 10 ^ (suc k) → length (digits_from f n) ≤ suc k
unfolding digits_from
length-digits_from k zero n h = omega arith
length-digits_from zero (suc f) n h = ground arith
length-digits_from (suc k) (suc f) n h = elim (le_or_lt 10 n) [
  | inl big ↦
      let last : ltb n 10 ≡ false = ground arith in
      let step : n < 10 ^ suc k * 10 = rw (← pow-suc 10 (suc k)) h in
      rw (last, length-append (digits_from f (n / 10)) ((b'0' + n % 10) ∷ []))
        (omega (arith, length-digits_from k f (n / 10) (omega arith)))
  | inr small ↦ ground arith
]
