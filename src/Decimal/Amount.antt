-- ===== src/Decimal/Amount.antt =====
-- `formatStroops` of src/policy/policy.service.ts.
use parashield_backend.Base.{ℕ, ◌/◌, ◌%◌, ◌+◌, List, ◌∷◌, ◌++◌}
use parashield_backend.Base.Int.{ℤ, pos, negsuc}
use parashield_backend.Decimal.Digits.{to_string, pad_start}

abbrev pub stroops_per_xlm : ℕ
stroops_per_xlm = 10_000_000

-- `${whole}.${frac}` of the absolute amount
unfoldable pub format_abs : ℕ → List ℕ
format_abs abs =
    to_string (abs / stroops_per_xlm) ++ b'.' ∷ pad_start 7 (to_string (abs % stroops_per_xlm))

unfoldable pub format_stroops : ℤ → List ℕ
unfolding format_abs
format_stroops (pos n) = format_abs n
format_stroops (negsuc n) = b'-' ∷ format_abs (n + 1)
