-- ===== src/Tests/Precision.antt =====
-- The precision validation on a request body.
use parashield_backend.Base.{ℕ, ◌≡◌, refl, List, [], ◌∷◌}
use parashield_backend.Decimal.{trim, is_space, split_digits}
use parashield_backend.Precision.{
  of_value, Json, str, array, object, no_items, item, no_entries, entry, accepted, negative_zero,
  too_precise, is_amount_field, validate_object,
}
use parashield_backend.Precision.Amounts.{Amount, in_array, in_object, in_item, named, in_entry}
use parashield_backend.Precision.Exact.{IsExact, validate_object-IsExact}

abbrev one_field : List ℕ → List ℕ → Json of_value
one_field key text = object (entry key (str text) no_entries)

abbrev amount_key : List ℕ
amount_key = b'A' ∷ b'm' ∷ b'o' ∷ b'u' ∷ b'n' ∷ b't' ∷ []

abbrev price : List ℕ
price = b'-' ∷ b'1' ∷ b'2' ∷ b'.' ∷ b'5' ∷ b'0' ∷ []

-- {"x": [{"Amount": "-12.50"}]}
abbrev nested : Json of_value
nested = object (entry (b'x' ∷ []) (array (item (one_field amount_key price) no_items)) no_entries)

price_found : Amount (str price) of_value nested
unfolding is_amount_field
price_found = in_object (in_entry refl (in_array (in_item (in_object (named refl)))))

nested_passes : validate_object nested ≡ accepted
unfolding validate_object trim is_space split_digits
nested_passes = refl

validate_object-IsExact_example : IsExact price
unfolding validate_object trim is_space
validate_object-IsExact_example = validate_object-IsExact price nested_passes price_found refl refl

eight_places_refused :
    validate_object (
      one_field amount_key
        (b'0' ∷ b'.' ∷ b'1' ∷ b'2' ∷ b'3' ∷ b'4' ∷ b'5' ∷ b'6' ∷ b'7' ∷ b'8' ∷ []))
    ≡ too_precise
unfolding validate_object trim is_space split_digits
eight_places_refused = refl

negative_zero_refused :
    validate_object (one_field amount_key (b'-' ∷ b'0' ∷ b'.' ∷ b'0' ∷ [])) ≡ negative_zero
unfolding validate_object trim is_space split_digits
negative_zero_refused = refl

-- Two zeros are a negative zero that neither test sees.
two_zeros_accepted : validate_object (one_field amount_key (b'-' ∷ b'0' ∷ b'0' ∷ [])) ≡ accepted
unfolding validate_object trim is_space split_digits
two_zeros_accepted = refl
