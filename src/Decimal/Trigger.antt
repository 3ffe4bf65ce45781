-- ===== src/Decimal/Trigger.antt =====
-- The trigger decision on values as they are stored: a reading is the text of a bigint, a threshold
-- that of a Decimal with at most seven places.
use parashield_backend.Base.{
  ℕ, ◌+◌, ◌-◌, ◌*◌, ◌^◌, ◌≤◌, ◌++◌, [], length, replicate, ◌≡◌, ◌↔◌, refl, ap, ◌∙◌, Bool, true,
  false, List, ◌∷◌, all, arith, some, ltb→lt, lt→ltb,
}
use parashield_backend.Base.Int.{ℤ, pos, negsuc, ◌<ℤ◌, negate}
use parashield_backend.Decimal.{
  is_digit, is_empty, to_string, bigint_text, split_sign, match_integer, parse_fixed_point_bigint,
  Comparison, less_than, other_comparison, compare_scaled_to_threshold, evaluate_threshold, str,
  parse_decimal_scaled, expand_exponent, value, match_scientific, match_exponent, place_point,
  split_digits, is_space,
}
use parashield_backend.Decimal.Print.{value-to_string, to_string-digits}
use parashield_backend.Decimal.Plain.{
  with_sign, signed, point, solid, match_plain-point, split_digits-all, trim-solid, digits_solid,
  signed_solid,
}
use parashield_backend.Decimal.RoundTrip.{to_string-nonempty}
use parashield_backend.Decimal.Whole.{split_sign_digits, decimal, parse_decimal, signed_nonempty}
use native.Mathlib.Numerals.{add-one}

match_integer_digits :
    (negative : Bool) (n : ℕ)
    → match_integer (with_sign negative (to_string n)) ≡ some (signed negative n)
match_integer_digits negative n =
    rw
      (
        split_sign_digits negative (to_string n) (to_string-digits n) (to_string-nonempty n),
        split_digits-all (to_string n) (to_string-digits n),
        to_string-nonempty n,
        value-to_string n,
      )
      refl

parse_integer :
    (negative : Bool) (n scale : ℕ)
    → parse_fixed_point_bigint (str (with_sign negative (to_string n))) scale
      ≡ some (signed negative n)
unfolding parse_fixed_point_bigint
parse_integer negative n scale =
    rw
      (
        trim-solid (with_sign negative (to_string n))
            (signed_solid negative (to_string n) (digits_solid (to_string n) (to_string-digits n))),
        match_integer_digits negative n,
        parse_fixed_point_bigint,
      )
      refl

parse-bigint_text :
    (z : ℤ) (scale : ℕ) → parse_fixed_point_bigint (str (bigint_text z)) scale ≡ some z
parse-bigint_text (pos n) scale = parse_integer false n scale
parse-bigint_text (negsuc n) scale = parse_integer true (n + 1) scale ∙ rw add-one

-- The side of the threshold on which a comparison triggers.
abbrev pub Triggers : Comparison → ℤ → ℤ → Type 0
Triggers less_than reading threshold = reading <ℤ threshold
Triggers other_comparison reading threshold = threshold <ℤ reading

compare_iff :
    (c : Comparison) (r t : ℤ) → (compare_scaled_to_threshold r t c ≡ true) ↔ Triggers c r t
unfolding compare_scaled_to_threshold
compare_iff less_than r t = (λ h. ltb→lt _ _ h, λ h. lt→ltb _ _ h)
compare_iff other_comparison r t = (λ h. ltb→lt _ _ h, λ h. lt→ltb _ _ h)

-- A digit with the exponent that `Decimal#toString` writes for less than ten units of 10 ^ -7.
abbrev pub tiny : ℕ → List ℕ
tiny d = d ∷ b'e' ∷ b'-' ∷ b'7' ∷ []

abbrev pub six_zeros : List ℕ
six_zeros = replicate 6 b'0'

split_sign-tiny :
    (negative : Bool) (d : ℕ)
    → is_digit d ≡ true
    → split_sign (with_sign negative (tiny d)) ≡ (negative, tiny d)
unfolding split_sign
split_sign-tiny true d h = refl
split_sign-tiny false d h = ground arith

split_digits-tiny :
    (d : ℕ) → is_digit d ≡ true → split_digits (tiny d) ≡ (d ∷ [], b'e' ∷ b'-' ∷ b'7' ∷ [])
unfolding split_digits
split_digits-tiny d h = ground arith

match_scientific-tiny :
    (negative : Bool) (d : ℕ)
    → is_digit d ≡ true
    → match_scientific (with_sign negative (tiny d))
      ≡ some
          (record { negative = negative; int_part = d ∷ []; frac_part = []; exponent = negate 7 })
unfolding match_scientific match_exponent split_digits split_sign value
match_scientific-tiny negative d h = rw (split_sign-tiny negative d h, split_digits-tiny d h) refl

tiny-solid : (d : ℕ) → is_digit d ≡ true → solid (tiny d) ≡ true
unfolding solid is_space
tiny-solid d h = ground arith

digit_all : (d : ℕ) → is_digit d ≡ true → all is_digit (six_zeros ++ d ∷ []) ≡ true
digit_all d h = rw h refl

expand_tiny :
    (negative : Bool) (d : ℕ)
    → is_digit d ≡ true
    → expand_exponent (with_sign negative (tiny d))
      ≡ with_sign negative (point (b'0' ∷ []) (six_zeros ++ d ∷ []))
unfolding expand_exponent place_point
expand_tiny negative d h = rw (expand_exponent, match_scientific-tiny negative d h) refl

-- The texts of a Decimal with at most seven places, and their values in units of 10 ^ -7.
pub data Stored : List ℕ → ℤ → Type 0 where
  plain :
      (negative : Bool) (ds fs : List ℕ)
      → all is_digit ds ≡ true
      → is_empty ds ≡ false
      → all is_digit fs ≡ true
      → length fs ≤ 7
      → Stored
          (with_sign negative (decimal ds fs))
          (signed negative (value (ds ++ fs) * 10 ^ (7 - length fs)))
  scientific :
      (negative : Bool) (d : ℕ)
      → is_digit d ≡ true
      → Stored (with_sign negative (tiny d)) (signed negative (d - b'0'))

value-tiny : (d : ℕ) → value (b'0' ∷ (six_zeros ++ d ∷ [])) * 1 ≡ d - b'0'
unfolding value
value-tiny d = omega arith

parse_tiny :
    (negative : Bool) (d : ℕ)
    → is_digit d ≡ true
    → parse_decimal_scaled (str (with_sign negative (tiny d))) 7 ≡ some (signed negative (d - b'0'))
unfolding parse_decimal_scaled
parse_tiny negative d h =
    rw
      (
        trim-solid _ (signed_solid negative (tiny d) (tiny-solid d h)),
        signed_nonempty negative (tiny d) refl,
        expand_tiny negative d h,
        match_plain-point negative (b'0' ∷ []) (six_zeros ++ d ∷ []) refl refl (digit_all d h),
      )
      (ap (λ n. some (signed negative n)) (value-tiny d))

parse-Stored : (text : List ℕ) (t : ℤ) → Stored text t → parse_decimal_scaled (str text) 7 ≡ some t
parse-Stored text t (plain negative ds fs h e k few) = parse_decimal negative ds fs h e k few
parse-Stored text t (scientific negative d h) = parse_tiny negative d h

-- For a reading that is the text of a bigint and a threshold that is the text of a Decimal with at
-- most seven places, written without an exponent or as a digit with the exponent -7, the evaluation
-- always succeeds, and triggers exactly if the exact numbers, in units of 10 ^ -7, lie strictly on
-- the side that the comparison names. So a reading equal to the threshold never triggers.
pub evaluate-Stored :
    (r t : ℤ) (c : Comparison) (text : List ℕ)
    → Stored text t
    → (b : Bool) × (evaluate_threshold (str (bigint_text r)) (str text) c 7 ≡ some b)
      × ((b ≡ true) ↔ Triggers c r t)
unfolding evaluate_threshold
evaluate-Stored r t c text stored = (
  compare_scaled_to_threshold r t c,
  rw (parse-bigint_text r 7, parse-Stored text t stored) refl,
  compare_iff c r t,
)
