-- ===== src/Oracle/KeyFormat.antt =====
-- The oracle keys: the regular expressions of `processKey` in src/oracle/oracle.worker.ts and of
-- `validateOracleKey` in src/policy/policy.service.ts, as recognisers of code units.
pub mod Agreement
use parashield_backend.Base.{
  ℕ, ◌+◌, ◌-◌, ◌*◌, Bool, true, false, not, ◌&&◌, ◌||◌, Option, none, some, List, [], ◌∷◌, leb,
  ◌==◌, if◌then◌else◌,
}
use parashield_backend.Decimal.{is_digit, is_empty, split_digits, value, ◌>>=◌}

-- The text behind a prefix.
unfoldable pub strip : List ℕ → List ℕ → Option (List ℕ)
strip [] text = some text
strip (p ∷ ps) [] = none
strip (p ∷ ps) (c ∷ text) = let rest = strip ps text in if c == p then rest else none

-- `-?`
abbrev pub skip_minus : List ℕ → List ℕ
skip_minus [] = []
skip_minus (c ∷ text) = if c == b'-' then text else c ∷ text

-- `(?:\.\d+)?`
abbrev pub skip_fraction : List ℕ → List ℕ
skip_fraction [] = []
skip_fraction (c ∷ text) =
    let (ds, rest) = split_digits text in if c == b'.' && not (is_empty ds) then rest else c ∷ text

-- `-?\d+(?:\.\d+)?`; what follows begins with no digit or point, so no shorter match goes on.
unfoldable pub skip_decimal : List ℕ → Option (List ℕ)
skip_decimal text =
    let (ds, rest) = split_digits (skip_minus text) in
    if is_empty ds then none else some (skip_fraction rest)

abbrev pub rainfall_prefix : List ℕ
rainfall_prefix = b'r' ∷ b'a' ∷ b'i' ∷ b'n' ∷ b'f' ∷ b'a' ∷ b'l' ∷ b'l' ∷ b':' ∷ []

abbrev pub flight_prefix : List ℕ
flight_prefix = b'f' ∷ b'l' ∷ b'i' ∷ b'g' ∷ b'h' ∷ b't' ∷ b':' ∷ []

abbrev pub defi_prefix : List ℕ
defi_prefix = b'd' ∷ b'e' ∷ b'f' ∷ b'i' ∷ b':' ∷ []

-- `^rainfall:<decimal>,<decimal>:`, and what follows it
unfoldable pub after_coordinates : List ℕ → Option (List ℕ)
unfolding strip skip_decimal
after_coordinates key = do
  lat ← strip rainfall_prefix key
  comma ← skip_decimal lat
  lng ← strip (b',' ∷ []) comma
  colon ← skip_decimal lng
  strip (b':' ∷ []) colon

abbrev is_code_unit : ℕ → Bool
is_code_unit c = leb b'A' c && leb c b'Z' || is_digit c

-- `[A-Z0-9]*`, and what follows
unfoldable pub split_code : List ℕ → List ℕ × List ℕ
split_code [] = ([], [])
split_code (c ∷ cs) =
    let (ds, rest) = split_code cs in if is_code_unit c then (c ∷ ds, rest) else ([], c ∷ cs)

-- `^flight:[A-Z0-9]+:`, and what follows it
unfoldable pub after_flight : List ℕ → Option (List ℕ)
unfolding strip split_code
after_flight key = do
  code ← strip flight_prefix key
  let (ds, colon) = split_code code
  if is_empty ds then none else strip (b':' ∷ []) colon

-- `\d{4}-\d{2}$`
abbrev pub is_month_text : List ℕ → Bool
is_month_text (a ∷ b ∷ c ∷ d ∷ e ∷ f ∷ g ∷ []) =
    is_digit a && is_digit b && is_digit c && is_digit d && e == b'-' && is_digit f && is_digit g
is_month_text _ = false

-- `\d{4}-\d{2}-\d{2}$`
abbrev pub is_date_text : List ℕ → Bool
is_date_text (a ∷ b ∷ c ∷ d ∷ e ∷ f ∷ g ∷ h ∷ i ∷ j ∷ []) =
    is_digit a
    && is_digit b
    && is_digit c
    && is_digit d
    && e == b'-'
    && is_digit f
    && is_digit g
    && h == b'-'
    && is_digit i
    && is_digit j
is_date_text _ = false

-- `0[1-9]|1[0-2]`
abbrev pub is_month : ℕ → ℕ → Bool
is_month f g = f == b'0' && leb b'1' g && leb g b'9' || f == b'1' && leb b'0' g && leb g b'2'

-- `0[1-9]|[12]\d|3[01]`
abbrev pub is_day : ℕ → ℕ → Bool
is_day i j =
    i == b'0' && leb b'1' j && leb j b'9'
    || (i == b'1' || i == b'2') && is_digit j
    || i == b'3' && leb b'0' j && leb j b'1'

-- `20\d{2}-(0[1-9]|1[0-2])$`
abbrev pub is_policy_month : List ℕ → Bool
is_policy_month (a ∷ b ∷ c ∷ d ∷ e ∷ f ∷ g ∷ []) =
    a == b'2' && b == b'0' && is_digit c && is_digit d && e == b'-' && is_month f g
is_policy_month _ = false

-- `20\d{2}-(0[1-9]|1[0-2])-(0[1-9]|[12]\d|3[01])$`
abbrev pub is_policy_date : List ℕ → Bool
is_policy_date (a ∷ b ∷ c ∷ d ∷ e ∷ f ∷ g ∷ h ∷ i ∷ j ∷ []) =
    a == b'2'
    && b == b'0'
    && is_digit c
    && is_digit d
    && e == b'-'
    && is_month f g
    && h == b'-'
    && is_day i j
is_policy_date _ = false

abbrev pub ends_in : (List ℕ → Bool) → Option (List ℕ) → Bool
ends_in test none = false
ends_in test (some rest) = test rest

-- The two expressions of `validateOracleKey`.
unfoldable pub is_crop_key : List ℕ → Bool
unfolding after_coordinates
is_crop_key key = ends_in is_policy_month (after_coordinates key)

unfoldable pub is_flight_key : List ℕ → Bool
unfolding after_flight
is_flight_key key = ends_in is_policy_date (after_flight key)

-- The branch of `processKey` that a key takes.
pub data KeyKind : Type 0 where
  rainfall_key : KeyKind
  flight_key : KeyKind
  -- a rainfall or flight key of another form, DeFi, or another kind: skipped
  invalid_format : KeyKind
  not_supported : KeyKind
  unknown : KeyKind

abbrev pub starts_with : Option (List ℕ) → Bool
starts_with none = false
starts_with (some rest) = true

unfoldable pub kind_of : List ℕ → KeyKind
unfolding strip after_coordinates after_flight
kind_of key =
    if starts_with (strip rainfall_prefix key)
    then if ends_in is_month_text (after_coordinates key) then rainfall_key else invalid_format
    else if starts_with (strip flight_prefix key)
    then if ends_in is_date_text (after_flight key) then flight_key else invalid_format
    else if starts_with (strip defi_prefix key)
    then not_supported
    else unknown
