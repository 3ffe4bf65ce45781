-- ===== src/Claims/Evidence/Accepted.antt =====
-- Which files src/claims/evidence-validation.ts accepts.
use Prim.Native.String.{String}
use parashield_backend.Base.{
  ℕ, zero, suc, ◌+◌, ◌≤◌, ◌≡◌, refl, sym, ap, ◌∙◌, inl, inr, true, false, arith, Option, none, some,
  List, [], ◌∷◌, ◌++◌, length, drop, any, ltb, Bool-cases, and_parts, ==_iff,
}
use parashield_backend.Claims.Evidence.{
  Lookup, type_info, inherited, undefined, allowed_evidence_types, max_evidence_file_size,
  EvidenceValidationResult, valid, too_large, too_small, mismatch, type_error, get_elem?, is_byte,
  matches_from, validate_evidence_file_type, validate_evidence_magic_bytes, validate_evidence_file,
  check_magic_bytes, and_then,
}

drop_at : (b : List ℕ) (i y : ℕ) → get_elem? b i ≡ some y → drop i b ≡ y ∷ drop (suc i) b
drop_at [] i y e = cc
drop_at (x ∷ xs) zero y e = let s : x ≡ y = cc in rw s refl
drop_at (x ∷ xs) (suc i) y e = drop_at xs i y e

plus_one : (i : ℕ) → suc i ≡ i + 1
plus_one i = omega arith

is_byte-some : (o : Option ℕ) (y : ℕ) → is_byte o y ≡ true → o ≡ some y
is_byte-some none y e = cc
is_byte-some (some b) y e = ap some ((==_iff b y).0 e)

matches_from-prefix :
    (i : ℕ) (signature b : List ℕ)
    → matches_from i signature b ≡ true
    → (rest : List ℕ) × (drop i b ≡ signature ++ rest)
unfolding matches_from
matches_from-prefix i [] b h = (drop i b, refl)
matches_from-prefix i (y ∷ ys) b h =
    let (here, later) = and_parts (is_byte (get_elem? b i) y) (matches_from (i + 1) ys b) h in
    let (rest, e) = matches_from-prefix (i + 1) ys b later in
    (
      rest,
      drop_at b i y (is_byte-some (get_elem? b i) y here)
          ∙ ap (λ r. y ∷ r) (ap (λ n. drop n b) (plus_one i) ∙ e),
    )

-- The content begins with one of the signatures.
pub data Signed (b : List ℕ) : List (List ℕ) → Type 0 where
  here :
      {signature : List ℕ} {others : List (List ℕ)} (rest : List ℕ)
      → b ≡ signature ++ rest
      → Signed b (signature ∷ others)
  there :
      {signature : List ℕ} {others : List (List ℕ)}
      → Signed b others
      → Signed b (signature ∷ others)

any-Signed :
    (b : List ℕ) (signatures : List (List ℕ))
    → any (λ signature. matches_from 0 signature b) signatures ≡ true
    → Signed b signatures
any-Signed b [] h = cc
any-Signed b (s ∷ ss) h = elim (Bool-cases (matches_from 0 s b)) [
  | inl e ↦ let (rest, p) = matches_from-prefix 0 s b e in here rest p
  | inr e ↦
      let rest : any (λ signature. matches_from 0 signature b) (s ∷ ss)
          ≡ any (λ signature. matches_from 0 signature b) ss =
        rw e refl in
      there (any-Signed b ss (sym rest ∙ h))
]

checked_valid :
    (l : Lookup) (b : List ℕ)
    → check_magic_bytes l b ≡ valid
    → (4 ≤ length b)
      × ((signatures : List (List ℕ)) × (l ≡ type_info signatures) × Signed b signatures)
unfolding check_magic_bytes
checked_valid undefined b h = cc
checked_valid inherited b h = elim (Bool-cases (ltb (length b) 4)) [
  | inl e ↦ let v : check_magic_bytes inherited b ≡ too_small = rw (check_magic_bytes, e) refl in cc
  | inr e ↦
      let v : check_magic_bytes inherited b ≡ type_error = rw (check_magic_bytes, e) refl in cc
]
checked_valid (type_info ss) b h = elim (Bool-cases (ltb (length b) 4)) [
  | inl e ↦
      let v : check_magic_bytes (type_info ss) b ≡ too_small = rw (check_magic_bytes, e) refl in cc
  | inr e ↦ elim (Bool-cases (any (λ signature. matches_from 0 signature b) ss)) [
    | inl found ↦ (ground arith, (ss, refl, any-Signed b ss found))
    | inr missing ↦
        let v : check_magic_bytes (type_info ss) b ≡ mismatch =
          rw (check_magic_bytes, e, missing) refl in
        cc
  ]
]

and_then_valid : (r next : EvidenceValidationResult) → and_then r next ≡ valid → next ≡ valid
and_then_valid valid next h = h
and_then_valid r next h = cc

-- An accepted file has at most 10 MB and at least four bytes, its declared type is one of the table's
-- own entries, and its content begins with a signature of that entry.
pub accepted_only :
    (m : String) (b : List ℕ)
    → validate_evidence_file m b ≡ valid
    → (length b ≤ max_evidence_file_size)
      × (4 ≤ length b)
      × ((signatures : List (List ℕ)) × (allowed_evidence_types m ≡ type_info signatures)
          × Signed b signatures)
unfolding validate_evidence_file validate_evidence_magic_bytes
accepted_only m b h = elim (Bool-cases (ltb max_evidence_file_size (length b))) [
  | inl e ↦
      let v : validate_evidence_file m b ≡ too_large = rw (validate_evidence_file, e) refl in cc
  | inr e ↦
      let v : validate_evidence_file m b
          ≡ and_then (validate_evidence_file_type m) (validate_evidence_magic_bytes m b) =
        rw (validate_evidence_file, e) refl in
      let (long, entry) = checked_valid (allowed_evidence_types m) b (
        and_then_valid (validate_evidence_file_type m) (validate_evidence_magic_bytes m b)
          (sym v ∙ h)) in
      (ground arith, long, entry)
]

-- A declared type that only names an inherited property, such as 'constructor', passes the white list,
-- and a file of a legal size then raises a TypeError instead of being refused.
pub inherited_name_throws :
    (m : String) (b : List ℕ)
    → allowed_evidence_types m ≡ inherited
    → 4 ≤ length b
    → length b ≤ max_evidence_file_size
    → (validate_evidence_file_type m ≡ valid) × (validate_evidence_file m b ≡ type_error)
unfolding validate_evidence_file validate_evidence_magic_bytes validate_evidence_file_type
    check_magic_bytes
inherited_name_throws m b own long short =
    let large : ltb max_evidence_file_size (length b) ≡ false = ground arith in
    let enough : ltb (length b) 4 ≡ false = ground arith in
    let passes : validate_evidence_file_type m ≡ valid =
      rw (own, validate_evidence_file_type) refl in
    let fails : check_magic_bytes (allowed_evidence_types m) b ≡ type_error =
      rw (own, check_magic_bytes, enough) refl in
    (passes, rw (large, validate_evidence_file, passes) fails)
