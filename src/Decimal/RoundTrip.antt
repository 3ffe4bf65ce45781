-- ===== src/Decimal/RoundTrip.antt =====
-- An amount that formatStroops prints is read back by parseDecimalScaled, and a stored reading and
-- threshold are compared as the numbers that they print.
use native.Mathlib.Nat.{pow-suc}
use parashield_backend.Base.{
  ℕ, zero, suc, ◌+◌, ◌-◌, ◌*◌, ◌/◌, ◌%◌, ◌^◌, ◌≤◌, ◌≡◌, refl, ◌∙◌, Bool, true, false, List, [], ◌∷◌,
  ◌++◌, length, replicate, all, length-append, length-replicate, arith, some, ltb, Bool-cases, inl,
  inr,
}
use parashield_backend.Base.Int.{ℤ, pos, negsuc}
use native.Mathlib.Numerals.{add-one}
use parashield_backend.Decimal.{
  digits_from, is_digit, is_empty, value_from, value, to_string, pad_start, format_abs,
  format_stroops, rescale, parse_decimal_scaled, str,
}
use parashield_backend.Decimal.Print.{
  value_from-append, value-to_string, to_string-digits, length-digits_from, all-append,
}
use parashield_backend.Decimal.Plain.{with_sign, signed, parse_point}

ends_nonempty : (xs : List ℕ) (c : ℕ) → is_empty (xs ++ c ∷ []) ≡ false
ends_nonempty [] c = refl
ends_nonempty (x ∷ xs) c = refl

pub to_string-nonempty : (n : ℕ) → is_empty (to_string n) ≡ false
unfolding to_string
to_string-nonempty n = elim (Bool-cases (ltb n 10)) [
  | inl one ↦ rw one
  | inr more ↦ rw more (ends_nonempty (digits_from n (n / 10)) _)
]

replicate-digits : (k : ℕ) → all is_digit (replicate k b'0') ≡ true
replicate-digits zero = refl
replicate-digits (suc k) = replicate-digits k

value_from-zeros : (k : ℕ) → value_from 0 (replicate k b'0') ≡ 0
value_from-zeros zero = refl
value_from-zeros (suc k) = value_from-zeros k

-- The seven digits of the fraction.
abbrev fraction : ℕ → List ℕ
fraction n = pad_start 7 (to_string (n % 10_000_000))

fraction-digits : (n : ℕ) → all is_digit (fraction n) ≡ true
fraction-digits n =
    all-append is_digit (replicate (7 - length (to_string (n % 10_000_000))) b'0') _
      (replicate-digits (7 - length (to_string (n % 10_000_000))))
      (to_string-digits (n % 10_000_000))

short : (n : ℕ) → length (to_string (n % 10_000_000)) ≤ 7
unfolding to_string
short n = length-digits_from 6 (suc (n % 10_000_000)) (n % 10_000_000) (omega arith)

length-fraction : (n : ℕ) → length (fraction n) ≡ 7
length-fraction n =
    length-append (replicate (7 - length (to_string (n % 10_000_000))) b'0')
      (to_string (n % 10_000_000))
    ∙ rw (length-replicate {A = ℕ} (7 - length (to_string (n % 10_000_000))) b'0')
        (omega (arith, short n))

-- Reading more digits multiplies by a power of ten for each.
value_from-shift :
    (acc : ℕ) (ds : List ℕ) → value_from acc ds ≡ acc * 10 ^ length ds + value_from 0 ds
value_from-shift acc [] = omega arith
value_from-shift acc (d ∷ ds) =
    rw
      (
        value_from-shift (acc * 10 + (d - b'0')) ds,
        value_from-shift (0 + (d - b'0')) ds,
        pow-suc 10 (length ds),
      )
      (omega arith)

value-fraction : (n : ℕ) → value_from 0 (fraction n) ≡ n % 10_000_000
unfolding value
value-fraction n =
    value_from-append 0 (replicate (7 - length (to_string (n % 10_000_000))) b'0')
      (to_string (n % 10_000_000))
    ∙ rw (value_from-zeros (7 - length (to_string (n % 10_000_000))))
        (value-to_string (n % 10_000_000))

value-format : (n : ℕ) → value (to_string (n / 10_000_000) ++ fraction n) ≡ n
unfolding value
value-format n =
    value_from-append 0 (to_string (n / 10_000_000)) (fraction n)
    ∙ rw
        (
          value-to_string (n / 10_000_000),
          value_from-shift (n / 10_000_000) (fraction n),
          value-fraction n,
          length-fraction n,
        )
        (omega arith)

rescale-seven : (v : ℕ) → rescale v 7 7 ≡ v
unfolding rescale
rescale-seven v = omega arith

format_abs-parse :
    (negative : Bool) (n : ℕ)
    → parse_decimal_scaled (str (with_sign negative (format_abs n))) 7 ≡ some (signed negative n)
unfolding format_abs
format_abs-parse negative n =
    parse_point negative (to_string (n / 10_000_000)) (fraction n) 7 (to_string-digits _)
      (to_string-nonempty _) (fraction-digits n)
    ∙ rw (value-format n, length-fraction n, rescale-seven n)

-- Every amount in stroops, negative ones too, is recovered exactly from its printed form.
pub parse-format_stroops : (z : ℤ) → parse_decimal_scaled (str (format_stroops z)) 7 ≡ some z
unfolding format_stroops
parse-format_stroops (pos n) = format_abs-parse false n
parse-format_stroops (negsuc n) = format_abs-parse true (n + 1) ∙ rw add-one
