-- ===== src/Decimal/Parse.antt =====
-- src/common/utils/decimal.ts. `none` is the InvalidDecimalError. The exponent of scientific
-- notation is exact here (`parseInt` of fewer than 16 digits).
use parashield_backend.Base.{
  ℕ, ◌+◌, ◌-◌, ◌*◌, ◌/◌, ◌%◌, ◌^◌, Bool, true, false, not, ◌&&◌, ◌||◌, Option, none, some, List, [],
  ◌∷◌, ◌++◌, length, take, drop, replicate, ltb, leb, ◌==◌, if◌then◌else◌,
}
use parashield_backend.Base.Int.{ℤ, pos, negsuc, negate, ltb_ℤ}
use parashield_backend.Decimal.Digits.{value, to_string}
use parashield_backend.Decimal.Text.{is_empty, trim, split_sign, split_digits}

-- The cases of `unknown` that the code tells apart. A finite number and an object stand for their
-- text, `String(value)`.
pub data Value : Type 0 where
  bigint : ℤ → Value
  finite_number : List ℕ → Value
  non_finite_number : Value
  str : List ℕ → Value
  object : List ℕ → Value
  unsupported : Value

-- What a regular expression captures.
pub record Captured : Type 0 where
  pub negative : Bool
  pub int_part : List ℕ
  pub frac_part : List ℕ
  pub exponent : ℤ

infixl 5 ◌>>=◌
abbrev pub ◌>>=◌ : {A B : Type 0} → Option A → (A → Option B) → Option B
none >>= f = none
some a >>= f = f a

-- `(\.(\d*))?` after the first digits: whether there is a point, its digits, and what follows
abbrev pub split_fraction : List ℕ → Bool × List ℕ × List ℕ
split_fraction [] = (false, [], [])
split_fraction (c ∷ cs) =
    let (ds, rest) = split_digits cs in if c == b'.' then (true, ds, rest) else (false, [], c ∷ cs)

-- `[eE][+-]?\d+$`
unfoldable pub match_exponent : List ℕ → Option ℤ
match_exponent [] = none
match_exponent (c ∷ cs) =
    let (negative, unsigned) = split_sign cs in
    let (ds, rest) = split_digits unsigned in
    if (c == b'e' || c == b'E') && not (is_empty ds) && is_empty rest
    then some (if negative then negate (value ds) else pos (value ds))
    else none

-- EXPONENT_PATTERN with the groups of the expression in `expandExponent`
unfoldable pub match_scientific : List ℕ → Option Captured
unfolding match_exponent
match_scientific input =
    let (negative, unsigned) = split_sign input in
    let (int_part, after) = split_digits unsigned in
    let (point, frac_part, tail) = split_fraction after in
    if is_empty int_part && is_empty frac_part then none else do
      exponent ← match_exponent tail
      some (record {
        negative = negative;
        int_part = int_part;
        frac_part = frac_part;
        exponent = exponent;
      })

-- The three cases of `pointPosition`, for an exponent that is positive or negative.
unfoldable pub place_point : List ℕ → ℕ → ℤ → List ℕ
place_point digits int_length (pos e) =
    let point_position = int_length + e in
    if leb point_position 0
    then b'0' ∷ b'.' ∷ digits
    else if leb (length digits) point_position
    then digits ++ replicate (point_position - length digits) b'0'
    else take point_position digits ++ b'.' ∷ drop point_position digits
place_point digits int_length (negsuc k) =
    let e = k + 1 in
    let point_position = int_length - e in
    if leb int_length e
    then b'0' ∷ b'.' ∷ replicate (e - int_length) b'0' ++ digits
    else if leb (length digits) point_position
    then digits ++ replicate (point_position - length digits) b'0'
    else take point_position digits ++ b'.' ∷ drop point_position digits

unfoldable pub expand_exponent : List ℕ → List ℕ
unfolding match_scientific place_point
expand_exponent input = elim (match_scientific input) [
  | none ↦ input
  | some m ↦
      let plain = place_point (m.int_part ++ m.frac_part) (length m.int_part) m.exponent in
      if m.negative then b'-' ∷ plain else plain
]

-- `BigInt#toString`
abbrev pub bigint_text : ℤ → List ℕ
bigint_text (pos n) = to_string n
bigint_text (negsuc n) = b'-' ∷ to_string (n + 1)

-- `startsWith('[object ')`
abbrev pub is_object_text : List ℕ → Bool
is_object_text (a ∷ b ∷ c ∷ d ∷ e ∷ f ∷ g ∷ h ∷ rest) =
    a == b'['
    && b == b'o'
    && c == b'b'
    && d == b'j'
    && e == b'e'
    && f == b'c'
    && g == b't'
    && h == 32
is_object_text s = false

unfoldable pub to_plain_decimal_string : Value → Option (List ℕ)
unfolding expand_exponent
to_plain_decimal_string (bigint z) = some (bigint_text z)
to_plain_decimal_string (finite_number text) = some (expand_exponent text)
to_plain_decimal_string non_finite_number = none
to_plain_decimal_string (str s) =
    let trimmed = trim s in if is_empty trimmed then none else some (expand_exponent trimmed)
to_plain_decimal_string (object s) =
    let stringified = trim s in
    if not (is_empty stringified) && not (is_object_text stringified)
    then some (expand_exponent stringified)
    else none
to_plain_decimal_string unsupported = none

-- PLAIN_DECIMAL_PATTERN; `.5` captures no second group, and `?? '0'` puts a zero there
unfoldable pub match_plain : List ℕ → Option Captured
match_plain plain =
    let (negative, unsigned) = split_sign plain in
    let (int_part, after) = split_digits unsigned in
    let (point, frac_part, tail) = split_fraction after in
    if not (is_empty tail)
    then none
    else if not (is_empty int_part)
    then some (record {
      negative = negative;
      int_part = int_part;
      frac_part = frac_part;
      exponent = pos 0;
    })
    else if not (is_empty frac_part)
    then some (record {
      negative = negative;
      int_part = b'0' ∷ [];
      frac_part = frac_part;
      exponent = pos 0;
    })
    else none

-- The mantissa at `scale` decimal places; digits beyond it are rounded half up.
unfoldable pub rescale : ℕ → ℕ → ℕ → ℕ
rescale mantissa frac_length scale =
    let divisor = 10 ^ (frac_length - scale) in
    let quotient = mantissa / divisor in
    let remainder = mantissa % divisor in
    if ltb scale frac_length
    then (if leb divisor (remainder * 2) then quotient + 1 else quotient)
    else mantissa * 10 ^ (scale - frac_length)

unfoldable pub parse_decimal_scaled : Value → ℕ → Option ℤ
unfolding to_plain_decimal_string match_plain rescale
parse_decimal_scaled v scale = do
  plain ← to_plain_decimal_string v
  m ← match_plain plain
  let scaled = rescale (value (m.int_part ++ m.frac_part)) (length m.frac_part) scale
  some (if m.negative then negate scaled else pos scaled)

-- `/^[+-]?\d+$/`
abbrev pub match_integer : List ℕ → Option ℤ
match_integer s =
    let (negative, unsigned) = split_sign s in
    let (ds, rest) = split_digits unsigned in
    if not (is_empty ds) && is_empty rest
    then some (if negative then negate (value ds) else pos (value ds))
    else none

-- A number that is an integer arrives as `bigint`.
unfoldable pub parse_fixed_point_bigint : Value → ℕ → Option ℤ
unfolding parse_decimal_scaled
parse_fixed_point_bigint (bigint z) scale = some z
parse_fixed_point_bigint (finite_number text) scale =
    parse_decimal_scaled (finite_number text) scale
parse_fixed_point_bigint non_finite_number scale = none
parse_fixed_point_bigint (str s) scale =
    let trimmed = trim s in
    elim (match_integer trimmed) [
      | some z ↦ some z
      | none ↦ parse_decimal_scaled (str trimmed) scale
    ]
parse_fixed_point_bigint (object s) scale = none
parse_fixed_point_bigint unsupported scale = none

-- `comparison === 'LessThan'`, or any other value
pub data Comparison : Type 0 where
  less_than other_comparison : Comparison

unfoldable pub compare_scaled_to_threshold : ℤ → ℤ → Comparison → Bool
compare_scaled_to_threshold reading threshold less_than = ltb_ℤ reading threshold
compare_scaled_to_threshold reading threshold other_comparison = ltb_ℤ threshold reading

unfoldable pub evaluate_threshold : Value → Value → Comparison → ℕ → Option Bool
unfolding parse_fixed_point_bigint compare_scaled_to_threshold
evaluate_threshold reading threshold comparison scale = do
  reading_scaled ← parse_fixed_point_bigint reading scale
  threshold_scaled ← parse_decimal_scaled threshold scale
  some (compare_scaled_to_threshold reading_scaled threshold_scaled comparison)
