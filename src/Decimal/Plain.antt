-- ===== src/Decimal/Plain.antt =====
-- What parseDecimalScaled makes of a plain decimal: `ddd.fff`, with or without a minus.
use native.Mathlib.Nat.{
  pow-suc, mul_assoc, pow-zero, mul-one, add-zero, add-suc, mod-lt, mul-le-mul_right, div-add-mod',
}
use parashield_backend.Base.{
  ℕ, zero, suc, ◌+◌, ◌-◌, ◌*◌, ◌/◌, ◌%◌, ◌^◌, ◌≤◌, ◌<◌, ◌≡◌, refl, ◌∙◌, ap, Bool, true, false, not,
  List, [], ◌∷◌, ◌++◌, length, all, ltb, leb, if◌then◌else◌, arith, le_or_lt, inl, inr, none, some,
  Bool-cases, and_parts, leb→le,
}
use parashield_backend.Base.Int.{ℤ, pos, negate}
use parashield_backend.Decimal.{
  is_digit, value, is_space, is_empty, trim_start, trim_end, trim, split_sign, split_digits,
  match_scientific, match_exponent, match_plain, expand_exponent, rescale, parse_decimal_scaled,
  Captured, str,
}

-- The text of a decimal with a point.
abbrev pub point : List ℕ → List ℕ → List ℕ
point ds fs = ds ++ b'.' ∷ fs

abbrev pub with_sign : Bool → List ℕ → List ℕ
with_sign negative text = if negative then b'-' ∷ text else text

abbrev pub signed : Bool → ℕ → ℤ
signed negative n = if negative then negate n else pos n

abbrev pub captured : Bool → List ℕ → List ℕ → Captured
captured negative ds fs = record {
  negative = negative;
  int_part = ds;
  frac_part = fs;
  exponent = pos 0;
}

pub split_digits-all : (ds : List ℕ) → all is_digit ds ≡ true → split_digits ds ≡ (ds, [])
unfolding split_digits
split_digits-all [] h = refl
split_digits-all (d ∷ ds) h = ground (arith, split_digits-all ds)

split_digits-point :
    (ds fs : List ℕ) → all is_digit ds ≡ true → split_digits (point ds fs) ≡ (ds, b'.' ∷ fs)
unfolding split_digits
split_digits-point [] fs h = refl
split_digits-point (d ∷ ds) fs h = ground (arith, split_digits-point ds fs)

split_sign-point :
    (negative : Bool) (ds fs : List ℕ)
    → all is_digit ds ≡ true
    → is_empty ds ≡ false
    → split_sign (with_sign negative (point ds fs)) ≡ (negative, point ds fs)
unfolding split_sign
split_sign-point true ds fs h e = refl
split_sign-point false [] fs h e = cc
split_sign-point false (d ∷ ds) fs h e = ground arith

pub match_plain-point :
    (negative : Bool) (ds fs : List ℕ)
    → all is_digit ds ≡ true
    → is_empty ds ≡ false
    → all is_digit fs ≡ true
    → match_plain (with_sign negative (point ds fs)) ≡ some (captured negative ds fs)
unfolding match_plain
match_plain-point negative ds fs h e k =
    rw (split_sign-point negative ds fs h e, split_digits-point ds fs h, split_digits-all fs k, e)
      refl

match_scientific-point :
    (negative : Bool) (ds fs : List ℕ)
    → all is_digit ds ≡ true
    → is_empty ds ≡ false
    → all is_digit fs ≡ true
    → match_scientific (with_sign negative (point ds fs)) ≡ none
unfolding match_scientific match_exponent
match_scientific-point negative ds fs h e k =
    rw (split_sign-point negative ds fs h e, split_digits-point ds fs h, split_digits-all fs k, e)
      refl

-- Trimming changes nothing where no character is a space.
unfoldable pub solid : List ℕ → Bool
solid = all (λ c. not (is_space c))

trim_start-solid : (s : List ℕ) → solid s ≡ true → trim_start s ≡ s
unfolding trim_start solid
trim_start-solid [] h = refl
trim_start-solid (c ∷ cs) h = ground arith

trim_end-solid : (s : List ℕ) → solid s ≡ true → trim_end s ≡ s
unfolding trim_end solid
trim_end-solid [] h = refl
trim_end-solid (c ∷ cs) h = ground (arith, trim_end-solid cs)

pub trim-solid : (s : List ℕ) → solid s ≡ true → trim s ≡ s
unfolding trim
trim-solid s h = rw (trim_start-solid s h) (trim_end-solid s h)

digit_solid : (c : ℕ) → is_digit c ≡ true → not (is_space c) ≡ true
unfolding is_space
digit_solid c h = ground arith

pub digits_solid : (ds : List ℕ) → all is_digit ds ≡ true → solid ds ≡ true
unfolding solid
digits_solid [] h = refl
digits_solid (d ∷ ds) h = ground (arith, digit_solid d, digits_solid ds)

solid_cons : (c : ℕ) (s : List ℕ) → not (is_space c) ≡ true → solid s ≡ true → solid (c ∷ s) ≡ true
unfolding solid
solid_cons c s h k = rw h k

point-solid :
    (ds fs : List ℕ) → all is_digit ds ≡ true → all is_digit fs ≡ true → solid (point ds fs) ≡ true
unfolding solid is_space
point-solid [] fs h k = digits_solid fs k
point-solid (d ∷ ds) fs h k =
    let (first, rest) = and_parts (is_digit d) (all is_digit ds) h in
    solid_cons d (point ds fs) (digit_solid d first) (point-solid ds fs rest k)

pub signed_solid :
    (negative : Bool) (s : List ℕ) → solid s ≡ true → solid (with_sign negative s) ≡ true
unfolding solid is_space
signed_solid true s h = h
signed_solid false s h = h

signed_nonempty :
    (negative : Bool) (ds fs : List ℕ) → is_empty (with_sign negative (point ds fs)) ≡ false
signed_nonempty true ds fs = refl
signed_nonempty false [] fs = refl
signed_nonempty false (d ∷ ds) fs = refl

expand_point :
    (negative : Bool) (ds fs : List ℕ)
    → all is_digit ds ≡ true
    → is_empty ds ≡ false
    → all is_digit fs ≡ true
    → expand_exponent (with_sign negative (point ds fs)) ≡ with_sign negative (point ds fs)
unfolding expand_exponent
expand_point negative ds fs h e k =
    rw (match_scientific-point negative ds fs h e k, expand_exponent)

-- The text reaches the plain pattern as it is, and the digits become one number that is rescaled.
pub parse_point :
    (negative : Bool) (ds fs : List ℕ) (scale : ℕ)
    → all is_digit ds ≡ true
    → is_empty ds ≡ false
    → all is_digit fs ≡ true
    → parse_decimal_scaled (str (with_sign negative (point ds fs))) scale
      ≡ some (signed negative (rescale (value (ds ++ fs)) (length fs) scale))
unfolding parse_decimal_scaled
parse_point negative ds fs scale h e k =
    rw
      (
        trim-solid _ (signed_solid negative _ (point-solid ds fs h k)),
        signed_nonempty negative ds fs,
        expand_point negative ds fs h e k,
        match_plain-point negative ds fs h e k,
      )
      refl

pow-add : (b m n : ℕ) → b ^ (m + n) ≡ b ^ m * b ^ n
pow-add b m zero = rw (add-zero, pow-zero, mul-one)
pow-add b m (suc n) = rw (add-suc, pow-suc, pow-suc, pow-add b m n) (mul_assoc (b ^ m) (b ^ n) b)

ten-pow-pos : (n : ℕ) → 0 < 10 ^ n
ten-pow-pos zero = omega arith
ten-pow-pos (suc n) = rw (pow-suc 10 n) (omega (arith, ten-pow-pos n))

half_up : ℕ → ℕ → ℕ
half_up v d = if leb d (v % d * 2) then v / d + 1 else v / d

half_up_nearest :
    (v d : ℕ) → 0 < d → (2 * half_up v d * d ≤ 2 * v + d) × (2 * v < 2 * half_up v d * d + d)
unfolding half_up
half_up_nearest v d h =
    let split : v / d * d + v % d ≡ v = div-add-mod' v d in
    let small : v % d < d = mod-lt v h in
    elim (Bool-cases (leb d (v % d * 2))) [
      | inl up ↦
          rw up (omega (arith, leb→le d (v % d * 2) up), omega (arith, leb→le d (v % d * 2) up))
      | inr down ↦ let below : v % d * 2 < d = ground arith in rw down (omega arith, omega arith)
    ]

-- An inequality between two numbers, multiplied by a third.
scale_le : (a b p : ℕ) → a ≤ b → a * p ≤ b * p
scale_le a b p h = mul-le-mul_right p h

scale_lt : (a b p : ℕ) → 0 < p → a < b → a * p < b * p
scale_lt a b p h k = omega (arith, mul-le-mul_right p k)

-- `r` is `v` times `10 ^ scale / 10 ^ places`, rounded to the nearest with halves up.
abbrev pub IsRounded : ℕ → ℕ → ℕ → ℕ → Type 0
IsRounded v places scale r =
    (2 * r * 10 ^ places ≤ 2 * v * 10 ^ scale + 10 ^ places)
    × (2 * v * 10 ^ scale < 2 * r * 10 ^ places + 10 ^ places)

rescale-IsRounded : (v places scale : ℕ) → IsRounded v places scale (rescale v places scale)
unfolding rescale half_up
rescale-IsRounded v places scale = elim (le_or_lt places scale) [
  | inl exact ↦
      let keeps : ltb scale places ≡ false = ground arith in
      let power : 10 ^ scale ≡ 10 ^ places * 10 ^ (scale - places) =
        ap (λ (t : ℕ). 10 ^ t) (omega arith) ∙ pow-add 10 places (scale - places) in
      rw (keeps, power) (omega arith, omega (arith, ten-pow-pos places))
  | inr rounds ↦
      let cuts : ltb scale places ≡ true = ground arith in
      let power : 10 ^ places ≡ 10 ^ scale * 10 ^ (places - scale) =
        ap (λ (t : ℕ). 10 ^ t) (omega arith) ∙ pow-add 10 scale (places - scale) in
      let d : ℕ = 10 ^ (places - scale) in
      let (low, high) = half_up_nearest v d (ten-pow-pos (places - scale)) in
      rw (cuts, power)
        (
          omega (arith, scale_le (2 * half_up v d * d) (2 * v + d) (10 ^ scale) low),
          omega (
            arith,
            scale_lt (2 * v) (2 * half_up v d * d + d) (10 ^ scale) (ten-pow-pos scale) high,
          ),
        )
]

-- A plain decimal (digits, a point and more digits or none, with a minus sign or none) is read as its
-- exact value times 10 ^ scale, rounded half away from zero, with its sign.
pub parse_point_rounds :
    (negative : Bool) (ds fs : List ℕ) (scale : ℕ)
    → all is_digit ds ≡ true
    → is_empty ds ≡ false
    → all is_digit fs ≡ true
    → (r : ℕ) × (parse_decimal_scaled (str (with_sign negative (point ds fs))) scale
        ≡ some (signed negative r))
      × IsRounded (value (ds ++ fs)) (length fs) scale r
parse_point_rounds negative ds fs scale h e k = (
  rescale (value (ds ++ fs)) (length fs) scale,
  parse_point negative ds fs scale h e k,
  rescale-IsRounded (value (ds ++ fs)) (length fs) scale,
)
