-- ===== src/Decimal/Whole.antt =====
-- What parseDecimalScaled makes of a decimal without a point, and of one with at most seven places.
use parashield_backend.Base.{
  ℕ, ◌-◌, ◌*◌, ◌^◌, ◌≤◌, ◌≡◌, refl, ap, ◌∙◌, Bool, true, false, none, some, List, [], ◌∷◌, ◌++◌,
  length, all, ltb, arith,
}
use parashield_backend.Decimal.{
  is_digit, value, is_empty, split_sign, match_scientific, match_exponent, match_plain,
  expand_exponent, rescale, parse_decimal_scaled,
}
use parashield_backend.Decimal.{str as str_value}
use parashield_backend.Decimal.Plain.{
  point, with_sign, signed, split_digits-all, trim-solid, digits_solid, signed_solid, parse_point,
  captured,
}

pub split_sign_digits :
    (negative : Bool) (ds : List ℕ)
    → all is_digit ds ≡ true
    → is_empty ds ≡ false
    → split_sign (with_sign negative ds) ≡ (negative, ds)
unfolding split_sign
split_sign_digits true ds h e = refl
split_sign_digits false (d ∷ ds) h e = ground arith
split_sign_digits false ds h e = cc

-- The text of a decimal, which has no point where nothing follows it.
abbrev pub decimal : List ℕ → List ℕ → List ℕ
decimal ds [] = ds
decimal ds (f ∷ fs) = point ds (f ∷ fs)

pub append_nil : (s : List ℕ) → s ++ [] ≡ s
append_nil [] = refl
append_nil (c ∷ cs) = ap (λ t. c ∷ t) (append_nil cs)

match_plain-whole :
    (negative : Bool) (ds : List ℕ)
    → all is_digit ds ≡ true
    → is_empty ds ≡ false
    → match_plain (with_sign negative ds) ≡ some (captured negative ds [])
unfolding match_plain
match_plain-whole negative ds h e =
    rw (split_sign_digits negative ds h e, split_digits-all ds h, e) refl

match_scientific-whole :
    (negative : Bool) (ds : List ℕ)
    → all is_digit ds ≡ true
    → is_empty ds ≡ false
    → match_scientific (with_sign negative ds) ≡ none
unfolding match_scientific match_exponent
match_scientific-whole negative ds h e =
    rw (split_sign_digits negative ds h e, split_digits-all ds h, e) refl

expand_whole :
    (negative : Bool) (ds : List ℕ)
    → all is_digit ds ≡ true
    → is_empty ds ≡ false
    → expand_exponent (with_sign negative ds) ≡ with_sign negative ds
unfolding expand_exponent
expand_whole negative ds h e = rw (match_scientific-whole negative ds h e, expand_exponent)

pub signed_nonempty :
    (negative : Bool) (ds : List ℕ) → is_empty ds ≡ false → is_empty (with_sign negative ds) ≡ false
signed_nonempty true ds e = refl
signed_nonempty false ds e = e

-- An integer without a point is read as it is.
parse_whole :
    (negative : Bool) (ds : List ℕ) (scale : ℕ)
    → all is_digit ds ≡ true
    → is_empty ds ≡ false
    → parse_decimal_scaled (str_value (with_sign negative ds)) scale
      ≡ some (signed negative (rescale (value (ds ++ [])) 0 scale))
unfolding parse_decimal_scaled
parse_whole negative ds scale h e =
    rw
      (
        trim-solid _ (signed_solid negative _ (digits_solid ds h)),
        signed_nonempty negative ds e,
        expand_whole negative ds h e,
        match_plain-whole negative ds h e,
        append_nil ds,
      )
      refl

pub rescale-exact : (v places : ℕ) → places ≤ 7 → rescale v places 7 ≡ v * 10 ^ (7 - places)
unfolding rescale
rescale-exact v places few = let keeps : ltb 7 places ≡ false = ground arith in rw keeps refl

-- A decimal with at most seven places, read at seven places.
pub parse_decimal :
    (negative : Bool) (ds fs : List ℕ)
    → all is_digit ds ≡ true
    → is_empty ds ≡ false
    → all is_digit fs ≡ true
    → length fs ≤ 7
    → parse_decimal_scaled (str_value (with_sign negative (decimal ds fs))) 7
      ≡ some (signed negative (value (ds ++ fs) * 10 ^ (7 - length fs)))
parse_decimal negative ds [] h e k few =
    parse_whole negative ds 7 h e ∙ ap (λ r. some (signed negative r)) (rescale-exact _ 0 few)
parse_decimal negative ds (f ∷ fs) h e k few =
    parse_point negative ds (f ∷ fs) 7 h e k
    ∙ ap (λ r. some (signed negative r)) (rescale-exact _ (length (f ∷ fs)) few)
