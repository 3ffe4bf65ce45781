-- ===== src/Ssrf/Dotted.antt =====
-- isPrivateIPv4 (src/common/webhooks/ssrf.validator.ts) on the texts of addresses.
use parashield_backend.Base.{
  ℕ, ◌≤◌, ◌≡◌, refl, true, some, List, [], ◌∷◌, ◌++◌, all, any, le→leb, arith,
}
use parashield_backend.Decimal.{is_digit, to_string}
use parashield_backend.Decimal.Print.{value-to_string, to_string-digits}
use parashield_backend.Decimal.RoundTrip.{to_string-nonempty}
use parashield_backend.Precision.{split_points}
use parashield_backend.Precision.Exact.{split_points-digits}
use parashield_backend.Ssrf.{part_number, part_numbers, of_parts, is_private_ipv4}
use parashield_backend.Ssrf.Ranges.{address, is_in, reserved_blocks, address_iff_reserved}

abbrev pub dotted : ℕ → ℕ → ℕ → ℕ → List ℕ
dotted b0 b1 b2 b3 =
    to_string b0 ++ b'.' ∷ (to_string b1 ++ b'.' ∷ (to_string b2 ++ b'.' ∷ to_string b3))

split_points-first :
    (ds s : List ℕ) → all is_digit ds ≡ true → split_points (ds ++ b'.' ∷ s) ≡ ds ∷ split_points s
unfolding split_points
split_points-first [] s h = refl
split_points-first (d ∷ ds) s h = ground (arith, split_points-first ds s)

split_points-dotted :
    (b0 b1 b2 b3 : ℕ)
    → split_points (dotted b0 b1 b2 b3)
      ≡ to_string b0 ∷ to_string b1 ∷ to_string b2 ∷ to_string b3 ∷ []
split_points-dotted b0 b1 b2 b3 =
    rw
      (
        split_points-first (to_string b0) _ (to_string-digits b0),
        split_points-first (to_string b1) _ (to_string-digits b1),
        split_points-first (to_string b2) _ (to_string-digits b2),
        split_points-digits (to_string b3) (to_string-digits b3),
      )
      refl

part_number-to_string : (n : ℕ) → part_number (to_string n) ≡ some n
unfolding part_number
part_number-to_string n = rw (to_string-nonempty n, to_string-digits n, value-to_string n) refl

-- An address of four bytes, written with dots, counts as private exactly if one of the twelve
-- listed blocks has it.
pub private_iff_reserved :
    (b0 b1 b2 b3 : ℕ)
    → b0 ≤ 255
    → b1 ≤ 255
    → b2 ≤ 255
    → b3 ≤ 255
    → is_private_ipv4 (dotted b0 b1 b2 b3) ≡ any (is_in (address b0 b1 b2 b3)) reserved_blocks
unfolding is_private_ipv4 part_numbers of_parts
private_iff_reserved b0 b1 b2 b3 h0 h1 h2 h3 =
    rw
      (
        split_points-dotted b0 b1 b2 b3,
        part_number-to_string b0,
        part_number-to_string b1,
        part_number-to_string b2,
        part_number-to_string b3,
        le→leb b0 255 h0,
        le→leb b1 255 h1,
        le→leb b2 255 h2,
        le→leb b3 255 h3,
      )
      (address_iff_reserved b0 b1 b2 b3 h0 h1 h2 h3)
