-- ===== src/Precision/Amounts.antt =====
-- The amounts of a body, and that usdc-precision-validation.middleware.ts validates each of them.
use parashield_backend.Base.{ℕ, ◌≡◌, refl, sym, ◌∙◌, Bool, true, false, List, if◌then◌else◌}
use parashield_backend.Precision.{
  Kind, of_value, of_items, of_entries, Json, array, object, item, entry, Validation, accepted,
  invalid_format, too_precise, negative_zero, not_finite, invalid_precision, is_amount_field,
  validate_amount, and_then, validate_object,
}

-- The values that stand under the name of an amount, in a body, its arrays and its objects.
pub data Amount (v : Json of_value) : (k : Kind) → Json k → Type 0 where
  in_array : {items : Json of_items} → Amount v of_items items → Amount v of_value (array items)
  in_object :
      {entries : Json of_entries} → Amount v of_entries entries → Amount v of_value (object entries)
  in_item :
      {w : Json of_value} {rest : Json of_items}
      → Amount v of_value w
      → Amount v of_items (item w rest)
  later_item :
      {w : Json of_value} {rest : Json of_items}
      → Amount v of_items rest
      → Amount v of_items (item w rest)
  named :
      {key : List ℕ} {rest : Json of_entries}
      → is_amount_field key ≡ true
      → Amount v of_entries (entry key v rest)
  in_entry :
      {key : List ℕ} {w : Json of_value} {rest : Json of_entries}
      → is_amount_field key ≡ false
      → Amount v of_value w
      → Amount v of_entries (entry key w rest)
  later_entry :
      {key : List ℕ} {w : Json of_value} {rest : Json of_entries}
      → Amount v of_entries rest
      → Amount v of_entries (entry key w rest)

and_then_parts : (o p : Validation) → and_then o p ≡ accepted → (o ≡ accepted) × (p ≡ accepted)
and_then_parts accepted p h = (refl, h)
and_then_parts invalid_format p h = cc
and_then_parts too_precise p h = cc
and_then_parts negative_zero p h = cc
and_then_parts not_finite p h = cc
and_then_parts invalid_precision p h = cc

if_true {ℓ} : {A : Type ℓ} (b : Bool) (x y : A) → b ≡ true → (if b then x else y) ≡ x
if_true b x y h = rw h refl

pub if_false {ℓ} : {A : Type ℓ} (b : Bool) (x y : A) → b ≡ false → (if b then x else y) ≡ y
if_false b x y h = rw h refl

pub inside_passes :
    {v : Json of_value} {k : Kind} {b : Json k}
    → Amount v k b
    → validate_object b ≡ accepted
    → validate_amount v ≡ accepted
unfolding validate_object
inside_passes (in_array a) h = inside_passes a h
inside_passes (in_object a) h = inside_passes a h
inside_passes (in_item a) h = inside_passes a (and_then_parts _ _ h).0
inside_passes (later_item a) h = inside_passes a (and_then_parts _ _ h).1
inside_passes (named is_amount) h = sym (if_true _ _ _ is_amount) ∙ (and_then_parts _ _ h).0
inside_passes (in_entry no_amount a) h =
    inside_passes a (sym (if_false _ _ _ no_amount) ∙ (and_then_parts _ _ h).0)
inside_passes (later_entry a) h = inside_passes a (and_then_parts _ _ h).1
