-- ===== src/Precision/Exact.antt =====
-- The text of an amount that usdc-precision-validation.middleware.ts lets through, and what
-- src/common/utils/decimal.ts reads of it.
use parashield_backend.Base.{
  ℕ, ◌-◌, ◌*◌, ◌^◌, ◌≤◌, ◌≡◌, refl, sym, ap, ◌∙◌, Bool, true, false, not, ◌&&◌, ◌||◌, Option, some,
  List, [], ◌∷◌, ◌++◌, length, all, ltb, ◌==◌, if◌then◌else◌, arith, inl, inr, Bool-cases,
  and_parts,
}
use parashield_backend.Decimal.{is_digit, value, is_empty, trim, split_digits, parse_decimal_scaled}
use parashield_backend.Decimal.{str as str_value}
use parashield_backend.Decimal.Plain.{point, with_sign, signed}
use parashield_backend.Decimal.Whole.{decimal, append_nil, parse_decimal}
use parashield_backend.Precision.{
  Kind, of_value, Json, null, boolean, number, str, array, object, accepted, invalid_format,
  too_precise, negative_zero, not_finite, string_of, skip_minus, matches_fraction, matches_number,
  split_points, max_decimal_places, exceeds_precision, matches_negative_zero, check_text,
  is_minus_zero, is_infinite_number, check_converted, validate_amount, validate_object,
}
use parashield_backend.Precision.Amounts.{Amount, if_false, inside_passes}

split_digits_joined : (s : List ℕ) → (split_digits s).0 ++ (split_digits s).1 ≡ s
unfolding split_digits
split_digits_joined [] = refl
split_digits_joined (c ∷ cs) = elim (Bool-cases (is_digit c)) [
  | inl digit ↦ rw digit (ap (λ t. c ∷ t) (split_digits_joined cs))
  | inr other ↦ rw other refl
]

split_digits-digits : (s : List ℕ) → all is_digit (split_digits s).0 ≡ true
unfolding split_digits
split_digits-digits [] = refl
split_digits-digits (c ∷ cs) = ground (arith, split_digits-digits cs)

empty_nil : (s : List ℕ) → is_empty s ≡ true → s ≡ []
empty_nil [] h = refl
empty_nil (c ∷ cs) h = cc

decimal-point : (ds fs : List ℕ) → not (is_empty fs) ≡ true → point ds fs ≡ decimal ds fs
decimal-point ds [] h = cc
decimal-point ds (f ∷ fs) h = refl

-- Digits up to the end are the whole text.
digits_whole : (s : List ℕ) → is_empty (split_digits s).1 ≡ true → (split_digits s).0 ≡ s
digits_whole s h =
    sym (append_nil _)
    ∙ ap (λ t. (split_digits s).0 ++ t) (sym (empty_nil _ h))
    ∙ split_digits_joined s

-- What the number's pattern matches: a sign, digits, and a point with digits or nothing.
fraction_digits :
    (s : List ℕ)
    → matches_fraction s ≡ true
    → (fs : List ℕ) × ((ds : List ℕ) → ds ++ s ≡ decimal ds fs) × (all is_digit fs ≡ true)
unfolding matches_fraction
fraction_digits [] h = ([], append_nil, refl)
fraction_digits (c ∷ cs) h =
    let (first, ended) =
      and_parts (c == b'.' && not (is_empty (split_digits cs).0)) (is_empty (split_digits cs).1)
        h in
    let (is_point, nonempty) = and_parts (c == b'.') (not (is_empty (split_digits cs).0)) first in
    let whole : (split_digits cs).0 ≡ cs = digits_whole cs ended in
    let some_digits : not (is_empty cs) ≡ true =
      sym (ap (λ t. not (is_empty t)) whole) ∙ nonempty in
    let c_point : c ≡ b'.' = ground arith in
    (
      cs,
      λ ds. ap (λ x. ds ++ x ∷ cs) c_point ∙ decimal-point ds cs some_digits,
      sym (ap (all is_digit) whole) ∙ split_digits-digits cs,
    )

unsigned_digits :
    (s : List ℕ)
    → not (is_empty (split_digits s).0) && matches_fraction (split_digits s).1 ≡ true
    → (ds : List ℕ) × (fs : List ℕ) × (s ≡ decimal ds fs)
      × (all is_digit ds ≡ true)
      × (is_empty ds ≡ false)
      × (all is_digit fs ≡ true)
unsigned_digits s h =
    let (nonempty, tail) = and_parts (not (is_empty (split_digits s).0)) _ h in
    let (fs, joined, digits) = fraction_digits (split_digits s).1 tail in
    (
      (split_digits s).0,
      fs,
      sym (split_digits_joined s) ∙ joined (split_digits s).0,
      split_digits-digits s,
      ground arith,
      digits,
    )

skip_minus_joined : (s : List ℕ) → s ≡ with_sign (skip_minus s).0 (skip_minus s).1
skip_minus_joined [] = refl
skip_minus_joined (c ∷ cs) = elim (Bool-cases (c == b'-')) [
  | inl minus ↦ let is_minus : c ≡ b'-' = ground arith in rw minus (ap (λ x. x ∷ cs) is_minus)
  | inr other ↦ rw other refl
]

number_digits :
    (s : List ℕ)
    → matches_number s ≡ true
    → (negative : Bool) × (ds : List ℕ) × (fs : List ℕ) × (s ≡ with_sign negative (decimal ds fs))
      × (all is_digit ds ≡ true)
      × (is_empty ds ≡ false)
      × (all is_digit fs ≡ true)
unfolding matches_number
number_digits s h =
    let (ds, fs, joined, digits, nonempty, places) = unsigned_digits (skip_minus s).1 h in
    (
      (skip_minus s).0,
      ds,
      fs,
      skip_minus_joined s ∙ ap (with_sign (skip_minus s).0) joined,
      digits,
      nonempty,
      places,
    )

pub split_points-digits : (ds : List ℕ) → all is_digit ds ≡ true → split_points ds ≡ ds ∷ []
unfolding split_points
split_points-digits [] h = refl
split_points-digits (d ∷ ds) h = ground (arith, split_points-digits ds)

split_points-point :
    (ds fs : List ℕ)
    → all is_digit ds ≡ true
    → all is_digit fs ≡ true
    → split_points (point ds fs) ≡ ds ∷ fs ∷ []
unfolding split_points
split_points-point [] fs h k = rw (split_points-digits fs k) refl
split_points-point (d ∷ ds) fs h k = ground (arith, split_points-point ds fs)

exceeds_signed :
    (negative : Bool) (ds fs : List ℕ)
    → all is_digit ds ≡ true
    → all is_digit fs ≡ true
    → exceeds_precision (split_points (with_sign negative (point ds fs)))
      ≡ ltb max_decimal_places (length fs)
unfolding split_points
exceeds_signed true ds fs h k = rw (split_points-point ds fs h k) refl
exceeds_signed false ds fs h k = rw (split_points-point ds fs h k) refl

-- The places after the point are what `split` leaves as the second part.
places_bounded :
    (negative : Bool) (ds fs : List ℕ)
    → all is_digit ds ≡ true
    → all is_digit fs ≡ true
    → exceeds_precision (split_points (with_sign negative (decimal ds fs))) ≡ false
    → length fs ≤ max_decimal_places
places_bounded negative ds [] h k e = omega arith
places_bounded negative ds (f ∷ fs) h k e =
    let few : ltb max_decimal_places (length (f ∷ fs)) ≡ false =
      sym (exceeds_signed negative ds (f ∷ fs) h k) ∙ e in
    ground arith

check_steps_of :
    (m e n z i : Bool)
    → (if not m
        then invalid_format
        else if e
        then too_precise
        else if z || n
        then negative_zero
        else if i
        then not_finite
        else accepted)
      ≡ accepted
    → (m ≡ true) × (e ≡ false) × (n ≡ false)
check_steps_of false e n z i h = cc
check_steps_of true true n z i h = cc
check_steps_of true false true true i h = cc
check_steps_of true false true false i h = cc
check_steps_of true false false z i h = (refl, refl, refl)

check_steps :
    (z i : Bool) (s : List ℕ)
    → is_empty (trim s) ≡ false
    → check_text z i s ≡ accepted
    → (matches_number s ≡ true)
      × (exceeds_precision (split_points s) ≡ false)
      × (matches_negative_zero s ≡ false)
unfolding check_text
check_steps z i s blank h =
    check_steps_of (matches_number s) (exceeds_precision (split_points s)) (matches_negative_zero s)
      z i (sym (if_false _ _ _ blank) ∙ h)

-- `s` is a minus or none, digits, and a point with one to seven digits or nothing; and what is read of it, in units of 10 ^ -7, is
-- its exact value.
abbrev pub IsExact : List ℕ → Type 0
IsExact s =
    (negative : Bool) × (ds : List ℕ) × (fs : List ℕ) × (s ≡ with_sign negative (decimal ds fs))
    × (all is_digit ds ≡ true)
    × (is_empty ds ≡ false)
    × (all is_digit fs ≡ true)
    × (length fs ≤ 7)
    × (parse_decimal_scaled (str_value s) 7
        ≡ some (signed negative (value (ds ++ fs) * 10 ^ (7 - length fs))))

pub check_text-IsExact :
    (z i : Bool) (s : List ℕ) → is_empty (trim s) ≡ false → check_text z i s ≡ accepted → IsExact s
check_text-IsExact z i s blank h =
    let (number_text, few, nonzero) = check_steps z i s blank h in
    let (negative, ds, fs, joined, digits, nonempty, places) = number_digits s number_text in
    let bounded : length fs ≤ max_decimal_places =
      places_bounded negative ds fs digits places
        (sym (ap (λ t. exceeds_precision (split_points t)) joined) ∙ few) in
    (
      negative,
      ds,
      fs,
      joined,
      digits,
      nonempty,
      places,
      bounded,
      ap (λ t. parse_decimal_scaled (str_value t) max_decimal_places) joined
          ∙ parse_decimal negative ds fs digits nonempty places bounded,
    )

null_blank : (s : List ℕ) → ◌≡◌ {A = Option (List ℕ)} (some []) (some s) → is_empty (trim s) ≡ true
unfolding trim
null_blank [] h = refl
null_blank (c ∷ cs) h = cc

converted-IsExact :
    (v : Json of_value) (s : List ℕ)
    → check_converted v (string_of v) ≡ accepted
    → string_of v ≡ some s
    → is_empty (trim s) ≡ false
    → IsExact s
unfolding check_text check_converted
converted-IsExact v s h text blank =
    check_text-IsExact (is_minus_zero v) (is_infinite_number v) s blank
      (sym (ap (check_converted v) text) ∙ h)

amount-IsExact :
    (v : Json of_value) (s : List ℕ)
    → validate_amount v ≡ accepted
    → string_of v ≡ some s
    → is_empty (trim s) ≡ false
    → IsExact s
unfolding validate_amount
amount-IsExact null s h text blank = let blank_too = null_blank s text in cc
amount-IsExact (boolean b) s h text blank = converted-IsExact (boolean b) s h text blank
amount-IsExact (number t z f) s h text blank = converted-IsExact (number t z f) s h text blank
amount-IsExact (str t) s h text blank = converted-IsExact (str t) s h text blank
amount-IsExact (array items) s h text blank = converted-IsExact (array items) s h text blank
amount-IsExact (object es) s h text blank = converted-IsExact (object es) s h text blank

-- Where a body is let through, each amount in it, at any depth, whose text is not blank is a minus or
-- none, digits, and a point with at most seven digits or nothing, and parseDecimalScaled reads its
-- exact value at seven places, with nothing rounded.
pub validate_object-IsExact :
    {v : Json of_value} {k : Kind} {b : Json k} (s : List ℕ)
    → validate_object b ≡ accepted
    → Amount v k b
    → string_of v ≡ some s
    → is_empty (trim s) ≡ false
    → IsExact s
validate_object-IsExact {v} s h a text blank = amount-IsExact v s (inside_passes a h) text blank
