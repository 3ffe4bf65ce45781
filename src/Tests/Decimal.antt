-- ===== src/Tests/Decimal.antt =====
-- Witnesses for Decimal: "-12.50" at scale 1, amounts in stroops, and a trigger.
use parashield_backend.Base.{ℕ, ◌≡◌, ◌↔◌, refl, Bool, true, false, arith, some, List, [], ◌∷◌, ◌++◌}
use parashield_backend.Base.Int.{pos, negsuc}
use parashield_backend.Decimal.{
  value, str, parse_decimal_scaled, rescale, format_stroops, bigint_text, less_than,
  evaluate_threshold,
}
use parashield_backend.Decimal.Plain.{
  with_sign, point, signed, IsRounded, parse_point, parse_point_rounds,
}
use parashield_backend.Decimal.RoundTrip.{parse-format_stroops}
use parashield_backend.Decimal.Trigger.{Triggers, Stored, plain, scientific, tiny, evaluate-Stored}

abbrev twelve : List ℕ
twelve = b'1' ∷ b'2' ∷ []

abbrev half : List ℕ
half = b'5' ∷ b'0' ∷ []

parse_point_example :
    parse_decimal_scaled (str (with_sign true (point twelve half))) 1
    ≡ some (signed true (rescale (value (twelve ++ half)) 2 1))
parse_point_example = parse_point true twelve half 1 refl refl refl

parse_point_rounds_example :
    (r : ℕ) × (parse_decimal_scaled (str (with_sign true (point twelve half))) 1
      ≡ some (signed true r))
    × IsRounded (value (twelve ++ half)) 2 1 r
parse_point_rounds_example = parse_point_rounds true twelve half 1 refl refl refl

parse-format_stroops_example :
    parse_decimal_scaled (str (format_stroops (negsuc 12_345_678))) 7 ≡ some (negsuc 12_345_678)
parse-format_stroops_example = parse-format_stroops (negsuc 12_345_678)

-- A threshold of 3, and one of one unit.
abbrev three : List ℕ
three = b'3' ∷ []

three-Stored : Stored three (pos 30_000_000)
unfolding value
three-Stored = plain false three [] refl refl refl (omega arith)

unit-Stored : Stored (tiny b'1') (pos 1)
unit-Stored = scientific false b'1' refl

evaluate-Stored_example :
    (b : Bool) × (evaluate_threshold (str (bigint_text (pos 25_000_000))) (str three) less_than 7
      ≡ some b)
    × ((b ≡ true) ↔ Triggers less_than (pos 25_000_000) (pos 30_000_000))
evaluate-Stored_example =
    evaluate-Stored (pos 25_000_000) (pos 30_000_000) less_than three three-Stored
