-- ===== src/Ssrf/Ranges.antt =====
-- The ranges of isPrivateIPv4 (src/common/webhooks/ssrf.validator.ts) as blocks of addresses.
use parashield_backend.Base.{
  ℕ, ◌+◌, ◌-◌, ◌*◌, ◌/◌, ◌^◌, ◌≤◌, ◌≡◌, refl, sym, Bool, true, false, ◌&&◌, ◌||◌, List, [], ◌∷◌,
  any, leb, ◌==◌, if◌then◌else◌, arith,
}
use parashield_backend.Ssrf.{is_private_address}

-- The number of an address of four bytes.
abbrev pub address : ℕ → ℕ → ℕ → ℕ → ℕ
address b0 b1 b2 b3 = ((b0 * 256 + b1) * 256 + b2) * 256 + b3

-- A block in CIDR notation, by its first address and the size 2 ^ (32 - length).
pub record Block : Type 0 where
  pub first : ℕ
  pub host_bits : ℕ

abbrev pub block : ℕ → ℕ → ℕ → ℕ → ℕ → Block
block b0 b1 b2 b3 prefix_length = record {
  first = address b0 b1 b2 b3;
  host_bits = 32 - prefix_length;
}

-- The addresses that share the block's prefix.
abbrev pub is_in : ℕ → Block → Bool
is_in a b = a / 2 ^ b.host_bits == b.first / 2 ^ b.host_bits

abbrev pub reserved_blocks : List Block
reserved_blocks =
    block 0 0 0 0 8
    ∷ block 10 0 0 0 8
    ∷ block 127 0 0 0 8
    ∷ block 100 64 0 0 10
    ∷ block 169 254 0 0 16
    ∷ block 172 16 0 0 12
    ∷ block 192 0 2 0 24
    ∷ block 192 168 0 0 16
    ∷ block 198 51 100 0 24
    ∷ block 203 0 113 0 24
    ∷ block 224 0 0 0 4
    ∷ block 240 0 0 0 4
    ∷ []

or_step : (a : Bool) {b x y : Bool} → a ≡ x → b ≡ y → (if a then true else b) ≡ (x || y)
or_step true h k = rw (sym h) refl
or_step false h k = rw (sym h) k

module _ (b0 b1 b2 b3 : ℕ) (h0 : b0 ≤ 255) (h1 : b1 ≤ 255) (h2 : b2 ≤ 255) (h3 : b3 ≤ 255) where
  this_network : (b0 == 0) ≡ is_in (address b0 b1 b2 b3) (block 0 0 0 0 8)
  this_network = ground arith

  private_ten : (b0 == 10) ≡ is_in (address b0 b1 b2 b3) (block 10 0 0 0 8)
  private_ten = ground arith

  loopback : (b0 == 127) ≡ is_in (address b0 b1 b2 b3) (block 127 0 0 0 8)
  loopback = ground arith

  carrier :
      (b0 == 100 && leb 64 b1 && leb b1 127) ≡ is_in (address b0 b1 b2 b3) (block 100 64 0 0 10)
  carrier = ground arith

  link_local : (b0 == 169 && b1 == 254) ≡ is_in (address b0 b1 b2 b3) (block 169 254 0 0 16)
  link_local = ground arith

  private_172 :
      (b0 == 172 && leb 16 b1 && leb b1 31) ≡ is_in (address b0 b1 b2 b3) (block 172 16 0 0 12)
  private_172 = ground arith

  test_one : (b0 == 192 && b1 == 0 && b2 == 2) ≡ is_in (address b0 b1 b2 b3) (block 192 0 2 0 24)
  test_one = ground arith

  private_192 : (b0 == 192 && b1 == 168) ≡ is_in (address b0 b1 b2 b3) (block 192 168 0 0 16)
  private_192 = ground arith

  test_two :
      (b0 == 198 && b1 == 51 && b2 == 100) ≡ is_in (address b0 b1 b2 b3) (block 198 51 100 0 24)
  test_two = ground arith

  test_three :
      (b0 == 203 && b1 == 0 && b2 == 113) ≡ is_in (address b0 b1 b2 b3) (block 203 0 113 0 24)
  test_three = ground arith

  multicast : (if leb 224 b0 then true else false) ≡ (
      is_in (address b0 b1 b2 b3) (block 224 0 0 0 4)
      || (is_in (address b0 b1 b2 b3) (block 240 0 0 0 4) || false))
  multicast = ground arith

  pub address_iff_reserved :
      is_private_address b0 b1 b2 ≡ any (is_in (address b0 b1 b2 b3)) reserved_blocks
  unfolding is_private_address
  address_iff_reserved = or_step _ this_network (
      or_step _ private_ten (
        or_step _ loopback (
          or_step _ carrier (
            or_step _ link_local (
              or_step _ private_172 (
                or_step _ test_one (
                  or_step _ private_192
                    (or_step _ test_two (or_step _ test_three (multicast))))))))))
