-- ===== src/Ssrf.antt =====
-- src/common/webhooks/ssrf.validator.ts. `net.isIPv4`, `net.isIPv6` and the parser of URLs are
-- parameters.
pub mod Ranges
pub mod Dotted
pub mod Mapped
use parashield_backend.Base.{
  ℕ, Bool, true, false, not, ◌&&◌, ◌||◌, Option, none, some, List, [], ◌∷◌, ◌++◌, length, all, any,
  drop, ltb, leb, ◌-◌, ◌==◌, if◌then◌else◌,
}
use parashield_backend.Decimal.{is_digit, is_empty, value, trim}
use parashield_backend.Precision.{same_text, split_points, to_lower_case}

-- `Number` of a part of a text that `net.isIPv4` accepts; `none` is NaN.
unfoldable pub part_number : List ℕ → Option ℕ
part_number part = if not (is_empty part) && all is_digit part then some (value part) else none

-- The ranges, in the order of the code.
unfoldable pub is_private_address : ℕ → ℕ → ℕ → Bool
is_private_address b0 b1 b2 =
    if b0 == 0
    then true
    else if b0 == 10
    then true
    else if b0 == 127
    then true
    else if b0 == 100 && leb 64 b1 && leb b1 127
    then true
    else if b0 == 169 && b1 == 254
    then true
    else if b0 == 172 && leb 16 b1 && leb b1 31
    then true
    else if b0 == 192 && b1 == 0 && b2 == 2
    then true
    else if b0 == 192 && b1 == 168
    then true
    else if b0 == 198 && b1 == 51 && b2 == 100
    then true
    else if b0 == 203 && b1 == 0 && b2 == 113
    then true
    else if leb 224 b0
    then true
    else false

abbrev pub is_byte : ℕ → Bool
is_byte p = leb p 255

unfoldable pub of_parts : List (Option ℕ) → Bool
unfolding is_private_address
of_parts (some b0 ∷ some b1 ∷ some b2 ∷ some b3 ∷ []) =
    if is_byte b0 && is_byte b1 && is_byte b2 && is_byte b3
    then is_private_address b0 b1 b2
    else false
of_parts parts = false

unfoldable pub part_numbers : List (List ℕ) → List (Option ℕ)
unfolding part_number
part_numbers [] = []
part_numbers (part ∷ parts) = part_number part ∷ part_numbers parts

unfoldable pub is_private_ipv4 : List ℕ → Bool
unfolding of_parts part_numbers split_points
is_private_ipv4 ip = of_parts (part_numbers (split_points ip))

unfoldable pub starts_with : List ℕ → List ℕ → Bool
starts_with [] s = true
starts_with (c ∷ cs) [] = false
starts_with (c ∷ cs) (d ∷ ds) = d == c && starts_with cs ds

unfoldable pub ends_with : List ℕ → List ℕ → Bool
unfolding same_text
ends_with suffix s =
    leb (length suffix) (length s) && same_text (drop (length s - length suffix) s) suffix

-- `[0-9a-f]`
abbrev pub is_hex : ℕ → Bool
is_hex c = is_digit c || leb b'a' c && leb c b'f'

-- `/^f[cd][0-9a-f]{2}:/i`, of a text in lower case
abbrev pub is_unique_local : List ℕ → Bool
is_unique_local (a ∷ b ∷ c ∷ d ∷ e ∷ rest) =
    a == b'f' && (b == b'c' || b == b'd') && is_hex c && is_hex d && e == b':'
is_unique_local s = false

-- `/^fe[89ab][0-9a-f]:/i`, of a text in lower case
abbrev pub is_link_local : List ℕ → Bool
is_link_local (a ∷ b ∷ c ∷ d ∷ e ∷ rest) =
    a == b'f'
    && b == b'e'
    && (c == b'8' || c == b'9' || c == b'a' || c == b'b')
    && is_hex d
    && e == b':'
is_link_local s = false

abbrev pub mapped_prefix : List ℕ
mapped_prefix = b':' ∷ b':' ∷ b'f' ∷ b'f' ∷ b'f' ∷ b'f' ∷ b':' ∷ []

-- `^\[` and `\]$`
abbrev pub strip_open : List ℕ → List ℕ
strip_open [] = []
strip_open (c ∷ cs) = if c == b'[' then cs else c ∷ cs

unfoldable pub strip_close : List ℕ → List ℕ
strip_close [] = []
strip_close (c ∷ cs) =
    let rest = strip_close cs in if c == b']' && is_empty cs then [] else c ∷ rest

abbrev pub internal_names : List (List ℕ)
internal_names =
    (b'm' ∷ b'e' ∷ b't' ∷ b'a' ∷ b'd' ∷ b'a' ∷ b't' ∷ b'a' ∷ b'.' ∷ b'g' ∷ b'o' ∷ b'o' ∷ b'g' ∷ b'l'
      ∷ b'e' ∷ b'.' ∷ b'i' ∷ b'n' ∷ b't' ∷ b'e' ∷ b'r' ∷ b'n' ∷ b'a' ∷ b'l' ∷ [])
    ∷ (b'm' ∷ b'e' ∷ b't' ∷ b'a' ∷ b'd' ∷ b'a' ∷ b't' ∷ b'a' ∷ [])
    ∷ (b'i' ∷ b'n' ∷ b's' ∷ b't' ∷ b'a' ∷ b'n' ∷ b'c' ∷ b'e' ∷ b'-' ∷ b'd' ∷ b'a' ∷ b't' ∷ b'a'
        ∷ [])
    ∷ []

abbrev pub internal_suffixes : List (List ℕ)
internal_suffixes =
    (b'.' ∷ b'i' ∷ b'n' ∷ b't' ∷ b'e' ∷ b'r' ∷ b'n' ∷ b'a' ∷ b'l' ∷ [])
    ∷ (b'.' ∷ b'l' ∷ b'o' ∷ b'c' ∷ b'a' ∷ b'l' ∷ [])
    ∷ []

abbrev pub localhost : List ℕ
localhost = b'l' ∷ b'o' ∷ b'c' ∷ b'a' ∷ b'l' ∷ b'h' ∷ b'o' ∷ b's' ∷ b't' ∷ []

abbrev pub https : List ℕ
https = b'h' ∷ b't' ∷ b't' ∷ b'p' ∷ b's' ∷ b':' ∷ []

pub data Endpoint : Type 0 where
  allowed : Endpoint
  url_required invalid_url not_https private_host : Endpoint

pub record Url : Type 0 where
  pub protocol : List ℕ
  pub hostname : List ℕ

module _ (is_ipv4 is_ipv6 : List ℕ → Bool) where
  unfoldable pub is_private_ipv6 : List ℕ → Bool
  unfolding is_private_ipv4 starts_with to_lower_case same_text
  is_private_ipv6 ip =
      let normalized = to_lower_case ip in
      let v4 = drop 7 normalized in
      let local = is_unique_local normalized || is_link_local normalized in
      if same_text normalized (b':' ∷ b':' ∷ b'1' ∷ []) || same_text normalized (b':' ∷ b':' ∷ [])
      then true
      else if starts_with mapped_prefix normalized && is_ipv4 v4
      then is_private_ipv4 v4
      else local

  unfoldable pub is_private_or_internal_host : List ℕ → Bool
  unfolding is_private_ipv6 is_private_ipv4 ends_with to_lower_case same_text strip_close trim
  is_private_or_internal_host raw_host =
      let host = trim (to_lower_case (strip_close (strip_open raw_host))) in
      if same_text host localhost || ends_with (b'.' ∷ localhost) host
      then true
      else if any (same_text host) internal_names || any (λ s. ends_with s host) internal_suffixes
      then true
      else if is_ipv4 host
      then is_private_ipv4 host
      else if is_ipv6 host
      then is_private_ipv6 host
      else false

  unfoldable pub validate_webhook_endpoint : (List ℕ → Option Url) → List ℕ → Endpoint
  unfolding is_private_or_internal_host same_text
  validate_webhook_endpoint parse_url raw_url =
      if is_empty raw_url then url_required else elim (parse_url raw_url) [
        | none ↦ invalid_url
        | some url ↦
            if not (same_text url.protocol https)
            then not_https
            else if is_private_or_internal_host url.hostname
            then private_host
            else allowed
      ]
