-- ===== src/Ssrf/Mapped.antt =====
-- IPv4-mapped addresses in isPrivateIPv6 (src/common/webhooks/ssrf.validator.ts).
use parashield_backend.Base.{ℕ, ◌≡◌, refl, Bool, ◌&&◌, List, ◌++◌, Bool-cases, inl, inr}
use parashield_backend.Precision.{same_text, to_lower_case}
use parashield_backend.Ssrf.{mapped_prefix, starts_with, is_private_ipv4, is_private_ipv6}

-- An address after ::ffff: counts as private exactly if net.isIPv4 accepts what follows the prefix
-- and that is a private IPv4 address. So a form that net.isIPv4 refuses never does, whatever
-- address it is.
pub mapped_iff_dotted :
    (is_ipv4 is_ipv6 : List ℕ → Bool) (v4 : List ℕ)
    → is_private_ipv6 is_ipv4 is_ipv6 (mapped_prefix ++ v4)
      ≡ (is_ipv4 (to_lower_case v4) && is_private_ipv4 (to_lower_case v4))
unfolding is_private_ipv6 same_text to_lower_case starts_with
mapped_iff_dotted is_ipv4 is_ipv6 v4 = elim (Bool-cases (is_ipv4 (to_lower_case v4))) [
  | inl dotted ↦ rw dotted refl
  | inr other ↦ rw other refl
]
