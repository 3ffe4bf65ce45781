-- ===== src/Tests/Ssrf.antt =====
-- The webhook validator on addresses.
use parashield_backend.Base.{ℕ, ◌≡◌, refl, Bool, List, [], ◌∷◌, ◌++◌, ◌&&◌, any, ◌==◌, arith, some}
use parashield_backend.Decimal.{is_space}
use parashield_backend.Precision.{to_lower_case}
use parashield_backend.Ssrf.{
  mapped_prefix, is_private_ipv4, is_private_ipv6, Url, https, allowed, validate_webhook_endpoint,
}
use parashield_backend.Ssrf.Ranges.{address, is_in, reserved_blocks}
use parashield_backend.Ssrf.Dotted.{dotted, private_iff_reserved}
use parashield_backend.Ssrf.Mapped.{mapped_iff_dotted}

-- The carrier-grade block ends before 100.128.0.0.
private_iff_reserved_example :
    is_private_ipv4 (dotted 100 127 0 9) ≡ any (is_in (address 100 127 0 9)) reserved_blocks
private_iff_reserved_example =
    private_iff_reserved 100 127 0 9 (omega arith) (omega arith) (omega arith) (omega arith)

abbrev has_dot : List ℕ → Bool
has_dot = any (λ c. c == b'.')

abbrev has_colon : List ℕ → Bool
has_colon = any (λ c. c == b':')

-- 127.0.0.1 in hexadecimal
abbrev loopback_hex : List ℕ
loopback_hex = b'7' ∷ b'f' ∷ b'0' ∷ b'0' ∷ b':' ∷ b'1' ∷ []

mapped_iff_dotted_example :
    is_private_ipv6 has_dot has_colon (mapped_prefix ++ loopback_hex)
    ≡ (has_dot (to_lower_case loopback_hex) && is_private_ipv4 (to_lower_case loopback_hex))
mapped_iff_dotted_example = mapped_iff_dotted has_dot has_colon loopback_hex

abbrev mapped_loopback : Url
mapped_loopback = record {
  protocol = https;
  hostname = b'[' ∷ (mapped_prefix ++ loopback_hex) ++ b']' ∷ [];
}

-- The endpoint https://[::ffff:7f00:1]/, whatever text of it the parser is given.
mapped_loopback_allowed :
    validate_webhook_endpoint has_dot has_colon (λ text. some mapped_loopback) https ≡ allowed
unfolding validate_webhook_endpoint is_space
mapped_loopback_allowed = refl
