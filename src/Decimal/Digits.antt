-- ===== src/Decimal/Digits.antt =====
-- Decimal digits: `BigInt(text)`, `BigInt#toString` and `padStart`.
use parashield_backend.Base.{
  ℕ, zero, suc, ◌+◌, ◌-◌, ◌*◌, ◌/◌, ◌%◌, Bool, ◌&&◌, List, [], ◌∷◌, ◌++◌, length, replicate, ltb,
  leb, if◌then◌else◌,
}

-- `\d`
abbrev pub is_digit : ℕ → Bool
is_digit c = leb b'0' c && leb c b'9'

abbrev pub value_from : ℕ → List ℕ → ℕ
value_from acc [] = acc
value_from acc (c ∷ cs) = value_from (acc * 10 + (c - b'0')) cs

-- `BigInt` of a run of digits
unfoldable pub value : List ℕ → ℕ
value = value_from 0

-- The fuel is one more than the number, which has at most as many digits.
unfoldable pub digits_from : ℕ → ℕ → List ℕ
digits_from zero n = []
digits_from (suc fuel) n =
    let rest = digits_from fuel (n / 10) in
    if ltb n 10 then (b'0' + n) ∷ [] else rest ++ (b'0' + n % 10) ∷ []

unfoldable pub to_string : ℕ → List ℕ
unfolding digits_from
to_string n = digits_from (suc n) n

-- `text.padStart(width, '0')`
abbrev pub pad_start : ℕ → List ℕ → List ℕ
pad_start width text = replicate (width - length text) b'0' ++ text
