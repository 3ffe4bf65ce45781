-- ===== src/Precision.antt =====
-- src/common/middleware/usdc-precision-validation.middleware.ts, on a body that `JSON.parse` made.
-- Every exception ends in a 400 response; the results tell them apart.
pub mod Amounts
pub mod Exact
use parashield_backend.Base.{
  ℕ, Bool, true, false, not, ◌&&◌, ◌||◌, Option, none, some, List, [], ◌∷◌, ◌++◌, length, all, any,
  ltb, leb, ◌+◌, ◌==◌, if◌then◌else◌,
}
use parashield_backend.Decimal.{is_digit, is_empty, trim, split_digits}

pub data Kind : Type 0 where
  of_value of_items of_entries : Kind

-- A value, the items of an array and the entries of an object. A number stands for its text,
-- `String(value)`, whether it is -0, and whether it is finite.
pub data Json : Kind → Type 0 where
  null : Json of_value
  boolean : Bool → Json of_value
  number : List ℕ → Bool → Bool → Json of_value
  str : List ℕ → Json of_value
  array : Json of_items → Json of_value
  object : Json of_entries → Json of_value
  no_items : Json of_items
  item : Json of_value → Json of_items → Json of_items
  no_entries : Json of_entries
  entry : List ℕ → Json of_value → Json of_entries → Json of_entries

pub data Validation : Type 0 where
  accepted : Validation
  invalid_format too_precise negative_zero not_finite : Validation
  invalid_precision : Validation

unfoldable pub same_text : List ℕ → List ℕ → Bool
same_text [] [] = true
same_text [] (y ∷ ys) = false
same_text (x ∷ xs) [] = false
same_text (x ∷ xs) (y ∷ ys) = x == y && same_text xs ys

-- `toLowerCase`: no letter beyond the ASCII capitals has a lower case that stands in a field's name.
unfoldable pub to_lower_case : List ℕ → List ℕ
to_lower_case [] = []
to_lower_case (c ∷ cs) = (if leb b'A' c && leb c b'Z' then c + 32 else c) ∷ to_lower_case cs

abbrev pub amount : List ℕ
amount = b'a' ∷ b'm' ∷ b'o' ∷ b'u' ∷ b'n' ∷ b't' ∷ []

abbrev pub premium : List ℕ
premium = b'p' ∷ b'r' ∷ b'e' ∷ b'm' ∷ b'i' ∷ b'u' ∷ b'm' ∷ []

abbrev pub payout : List ℕ
payout = b'p' ∷ b'a' ∷ b'y' ∷ b'o' ∷ b'u' ∷ b't' ∷ []

abbrev pub amount_fields : List (List ℕ)
amount_fields =
    amount
    ∷ premium
    ∷ (b'c' ∷ b'o' ∷ b'v' ∷ b'e' ∷ b'r' ∷ b'a' ∷ b'g' ∷ b'e' ∷ amount)
    ∷ (payout ++ amount)
    ∷ (b'm' ∷ b'i' ∷ b'n' ∷ payout)
    ∷ (b'm' ∷ b'a' ∷ b'x' ∷ payout)
    ∷ []

unfoldable pub is_amount_field : List ℕ → Bool
unfolding same_text to_lower_case
is_amount_field key = any (same_text (to_lower_case key)) amount_fields

abbrev to_string_name : List ℕ
to_string_name = b't' ∷ b'o' ∷ b'S' ∷ b't' ∷ b'r' ∷ b'i' ∷ b'n' ∷ b'g' ∷ []

abbrev object_text : List ℕ
object_text =
    b'[' ∷ b'o' ∷ b'b' ∷ b'j' ∷ b'e' ∷ b'c' ∷ b't' ∷ 32 ∷ b'O' ∷ b'b' ∷ b'j' ∷ b'e' ∷ b'c' ∷ b't'
    ∷ b']' ∷ []

abbrev no_more : Json of_items → Bool
no_more no_items = true
no_more (item v rest) = false

infixl 5 ◌>>=◌
abbrev ◌>>=◌ : {A B : Type 0} → Option A → (A → Option B) → Option B
none >>= f = none
some a >>= f = f a

-- `String(value)`. An array joins the texts of its items, where null has an empty one; a value that
-- is null is never converted. `none` is the TypeError of an object with a `toString` of its own,
-- which is not a function.
unfoldable pub string_of : {k : Kind} → Json k → Option (List ℕ)
unfolding same_text
string_of null = some []
string_of (boolean true) = some (b't' ∷ b'r' ∷ b'u' ∷ b'e' ∷ [])
string_of (boolean false) = some (b'f' ∷ b'a' ∷ b'l' ∷ b's' ∷ b'e' ∷ [])
string_of (number text is_negative_zero is_finite) = some text
string_of (str s) = some s
string_of (array items) = string_of items
string_of (object entries) = string_of entries
string_of no_items = some []
string_of (item v rest) =
    let others = string_of rest in
    do
      first ← string_of v
      others_text ← others
      some (if no_more rest then first else first ++ b',' ∷ others_text)
string_of no_entries = some object_text
string_of (entry key v rest) =
    let others = string_of rest in if same_text key to_string_name then none else others

-- `-?`: what follows it
abbrev pub skip_minus : List ℕ → Bool × List ℕ
skip_minus [] = (false, [])
skip_minus (c ∷ cs) = if c == b'-' then (true, cs) else (false, c ∷ cs)

-- `(\.\d+)?$`
unfoldable pub matches_fraction : List ℕ → Bool
matches_fraction [] = true
matches_fraction (c ∷ cs) =
    let (fs, rest) = split_digits cs in c == b'.' && not (is_empty fs) && is_empty rest

-- `/^-?\d+(\.\d+)?$/`
unfoldable pub matches_number : List ℕ → Bool
unfolding matches_fraction
matches_number s =
    let (negative, unsigned) = skip_minus s in
    let (ds, after) = split_digits unsigned in not (is_empty ds) && matches_fraction after

abbrev pub to_first : ℕ → List (List ℕ) → List (List ℕ)
to_first c [] = (c ∷ []) ∷ []
to_first c (part ∷ parts) = (c ∷ part) ∷ parts

-- `strValue.split('.')`
unfoldable pub split_points : List ℕ → List (List ℕ)
split_points [] = [] ∷ []
split_points (c ∷ cs) =
    let rest = split_points cs in if c == b'.' then [] ∷ rest else to_first c rest

abbrev pub max_decimal_places : ℕ
max_decimal_places = 7

-- `parts.length === 2 && parts[1].length > this.MAX_DECIMAL_PLACES`
abbrev pub exceeds_precision : List (List ℕ) → Bool
exceeds_precision (a ∷ b ∷ []) = ltb max_decimal_places (length b)
exceeds_precision parts = false

-- `/^-0(\.0*)?$/`, which `'-0'` matches too
abbrev pub matches_negative_zero : List ℕ → Bool
matches_negative_zero (a ∷ b ∷ []) = a == b'-' && b == b'0'
matches_negative_zero (a ∷ b ∷ c ∷ cs) =
    a == b'-' && b == b'0' && c == b'.' && all (λ d. d == b'0') cs
matches_negative_zero s = false

-- The checks on the text, with `Object.is(value, -0)` and whether the value is a number that is
-- not finite.
unfoldable pub check_text : Bool → Bool → List ℕ → Validation
unfolding matches_number split_points
check_text is_negative_zero is_infinite s =
    if is_empty (trim s)
    then accepted
    else if not (matches_number s)
    then invalid_format
    else if exceeds_precision (split_points s)
    then too_precise
    else if is_negative_zero || matches_negative_zero s
    then negative_zero
    else if is_infinite
    then not_finite
    else accepted

abbrev pub is_minus_zero : Json of_value → Bool
is_minus_zero (number text is_negative_zero is_finite) = is_negative_zero
is_minus_zero v = false

abbrev pub is_infinite_number : Json of_value → Bool
is_infinite_number (number text is_negative_zero is_finite) = not is_finite
is_infinite_number v = false

unfoldable pub check_converted : Json of_value → Option (List ℕ) → Validation
unfolding check_text
check_converted v none = invalid_precision
check_converted v (some s) = check_text (is_minus_zero v) (is_infinite_number v) s

unfoldable pub validate_amount : Json of_value → Validation
unfolding string_of check_converted
validate_amount null = accepted
validate_amount v = check_converted v (string_of v)

abbrev pub and_then : Validation → Validation → Validation
and_then accepted next = next
and_then error next = error

unfoldable pub validate_object : {k : Kind} → Json k → Validation
unfolding is_amount_field validate_amount
validate_object (array items) = validate_object items
validate_object (object entries) = validate_object entries
validate_object (item v rest) = and_then (validate_object v) (validate_object rest)
validate_object (entry key v rest) =
    let nested = validate_object v in
    let others = validate_object rest in
    and_then (if is_amount_field key then validate_amount v else nested) others
validate_object v = accepted
