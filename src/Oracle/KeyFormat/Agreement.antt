-- ===== src/Oracle/KeyFormat/Agreement.antt =====
-- The worker recognises every key that a policy can be bought for.
use parashield_backend.Base.{
  ℕ, ◌≡◌, refl, Bool, true, false, Option, none, some, List, [], ◌∷◌, arith,
}
use parashield_backend.Decimal.{◌>>=◌}
use parashield_backend.Oracle.KeyFormat.{
  strip, rainfall_prefix, flight_prefix, after_coordinates, after_flight, is_policy_month,
  is_month_text, is_policy_date, is_date_text, ends_in, is_crop_key, is_flight_key, kind_of,
  rainfall_key, flight_key, starts_with,
}

policy_month_is_text : (text : List ℕ) → is_policy_month text ≡ true → is_month_text text ≡ true
policy_month_is_text [] h = cc
policy_month_is_text (a ∷ []) h = cc
policy_month_is_text (a ∷ b ∷ []) h = cc
policy_month_is_text (a ∷ b ∷ c ∷ []) h = cc
policy_month_is_text (a ∷ b ∷ c ∷ d ∷ []) h = cc
policy_month_is_text (a ∷ b ∷ c ∷ d ∷ e ∷ []) h = cc
policy_month_is_text (a ∷ b ∷ c ∷ d ∷ e ∷ f ∷ []) h = cc
policy_month_is_text (a ∷ b ∷ c ∷ d ∷ e ∷ f ∷ g ∷ []) h = ground arith
policy_month_is_text (a ∷ b ∷ c ∷ d ∷ e ∷ f ∷ g ∷ z ∷ zs) h = cc

policy_date_is_text : (text : List ℕ) → is_policy_date text ≡ true → is_date_text text ≡ true
policy_date_is_text [] q = cc
policy_date_is_text (a ∷ []) q = cc
policy_date_is_text (a ∷ b ∷ []) q = cc
policy_date_is_text (a ∷ b ∷ c ∷ []) q = cc
policy_date_is_text (a ∷ b ∷ c ∷ d ∷ []) q = cc
policy_date_is_text (a ∷ b ∷ c ∷ d ∷ e ∷ []) q = cc
policy_date_is_text (a ∷ b ∷ c ∷ d ∷ e ∷ f ∷ []) q = cc
policy_date_is_text (a ∷ b ∷ c ∷ d ∷ e ∷ f ∷ g ∷ []) q = cc
policy_date_is_text (a ∷ b ∷ c ∷ d ∷ e ∷ f ∷ g ∷ h ∷ []) q = cc
policy_date_is_text (a ∷ b ∷ c ∷ d ∷ e ∷ f ∷ g ∷ h ∷ i ∷ []) q = cc
policy_date_is_text (a ∷ b ∷ c ∷ d ∷ e ∷ f ∷ g ∷ h ∷ i ∷ j ∷ []) q = ground arith
policy_date_is_text (a ∷ b ∷ c ∷ d ∷ e ∷ f ∷ g ∷ h ∷ i ∷ j ∷ z ∷ zs) q = cc

ends_in_weaker :
    (p q : List ℕ → Bool) (o : Option (List ℕ))
    → ((text : List ℕ) → p text ≡ true → q text ≡ true)
    → ends_in p o ≡ true
    → ends_in q o ≡ true
ends_in_weaker p q none k h = cc
ends_in_weaker p q (some text) k h = k text h

bind_starts :
    (o : Option (List ℕ)) (f : List ℕ → Option (List ℕ)) (p : List ℕ → Bool)
    → ends_in p (o >>= f) ≡ true
    → starts_with o ≡ true
bind_starts none f p h = cc
bind_starts (some text) f p h = refl

-- A key of one kind has not the other's prefix.
flight_not_rainfall :
    (key : List ℕ)
    → starts_with (strip flight_prefix key) ≡ true
    → starts_with (strip rainfall_prefix key) ≡ false
unfolding strip
flight_not_rainfall [] h = cc
flight_not_rainfall (c ∷ key) h = ground arith

pub crop_key_is_fetched : (key : List ℕ) → is_crop_key key ≡ true → kind_of key ≡ rainfall_key
unfolding is_crop_key kind_of after_coordinates
crop_key_is_fetched key h =
    let starts = bind_starts (strip rainfall_prefix key) _ is_policy_month h in
    let worker =
      ends_in_weaker is_policy_month is_month_text (after_coordinates key) policy_month_is_text h in
    rw (starts, worker) refl

pub flight_key_is_fetched : (key : List ℕ) → is_flight_key key ≡ true → kind_of key ≡ flight_key
unfolding is_flight_key kind_of after_flight
flight_key_is_fetched key h =
    let starts = bind_starts (strip flight_prefix key) _ is_policy_date h in
    let worker =
      ends_in_weaker is_policy_date is_date_text (after_flight key) policy_date_is_text h in
    rw (flight_not_rainfall key starts, starts, worker) refl
