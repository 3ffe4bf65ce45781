-- ===== src/Claims/Evidence.antt =====
-- src/claims/evidence-validation.ts. A lookup in the table's object literal also finds what the
-- object inherits, which has no `magicBytes`; a TypeError is a result of its own.
pub mod Accepted
use Prim.Native.String.{String}
use text.Mathlib.Text.{◌==◌ as str_eq}
use parashield_backend.Base.{
  ℕ, zero, suc, ◌+◌, ◌*◌, ◌≤◌, ◌≡◌, ◌↔◌, refl, sym, ap, ◌∙◌, ◌⊎◌, inl, inr, Bool, true, false, ◌&&◌,
  ◌||◌, arith, Option, none, some, List, [], ◌∷◌, ◌++◌, length, drop, any, ltb, ◌==◌, if◌then◌else◌,
  Bool-cases, and_parts, ==_iff,
}

-- `ALLOWED_EVIDENCE_TYPES[mimeType]`: the magic bytes of a type, an inherited property, or undefined
pub data Lookup : Type 0 where
  type_info : List (List ℕ) → Lookup
  inherited : Lookup
  undefined : Lookup

-- The property names of Object.prototype
abbrev inherited_names : List String
inherited_names =
    "constructor" ∷ "toString" ∷ "toLocaleString" ∷ "valueOf" ∷ "hasOwnProperty" ∷ "isPrototypeOf"
    ∷ "propertyIsEnumerable" ∷ "__proto__" ∷ "__defineGetter__" ∷ "__defineSetter__"
    ∷ "__lookupGetter__" ∷ "__lookupSetter__" ∷ []

unfoldable pub allowed_evidence_types : String → Lookup
allowed_evidence_types mime_type =
    if str_eq mime_type "image/png"
    then type_info ((137 ∷ 80 ∷ 78 ∷ 71 ∷ []) ∷ [])
    else if str_eq mime_type "image/jpeg"
    then type_info ((255 ∷ 216 ∷ 255 ∷ []) ∷ [])
    else if str_eq mime_type "image/webp"
    then type_info ((82 ∷ 73 ∷ 70 ∷ 70 ∷ []) ∷ [])
    else if str_eq mime_type "application/pdf"
    then type_info ((37 ∷ 80 ∷ 68 ∷ 70 ∷ []) ∷ [])
    else if any (str_eq mime_type) inherited_names
    then inherited
    else undefined

abbrev pub max_evidence_file_size : ℕ
max_evidence_file_size = 10 * 1024 * 1024

pub data EvidenceValidationResult : Type 0 where
  valid : EvidenceValidationResult
  not_allowed unknown_type too_small mismatch too_large : EvidenceValidationResult
  type_error : EvidenceValidationResult

unfoldable pub validate_evidence_file_type : String → EvidenceValidationResult
validate_evidence_file_type mime_type = elim (allowed_evidence_types mime_type) [
  | undefined ↦ not_allowed
  | _ ↦ valid
]

-- `buffer[index]`, where `none` is undefined
abbrev pub get_elem? : List ℕ → ℕ → Option ℕ
get_elem? [] i = none
get_elem? (x ∷ xs) zero = some x
get_elem? (x ∷ xs) (suc i) = get_elem? xs i

abbrev pub is_byte : Option ℕ → ℕ → Bool
is_byte none byte = false
is_byte (some b) byte = b == byte

-- `signature.every((byte, index) => buffer[index] === byte)`, from an index on
unfoldable pub matches_from : ℕ → List ℕ → List ℕ → Bool
matches_from index [] buffer = true
matches_from index (byte ∷ signature) buffer =
    is_byte (get_elem? buffer index) byte && matches_from (index + 1) signature buffer

-- The checks after the lookup.
unfoldable pub check_magic_bytes : Lookup → List ℕ → EvidenceValidationResult
unfolding matches_from
check_magic_bytes undefined buffer = unknown_type
check_magic_bytes inherited buffer = if ltb (length buffer) 4 then too_small else type_error
check_magic_bytes (type_info magic_bytes) buffer =
    if ltb (length buffer) 4
    then too_small
    else if any (λ signature. matches_from 0 signature buffer) magic_bytes
    then valid
    else mismatch

unfoldable pub validate_evidence_magic_bytes : String → List ℕ → EvidenceValidationResult
unfolding check_magic_bytes
validate_evidence_magic_bytes mime_type buffer =
    check_magic_bytes (allowed_evidence_types mime_type) buffer

-- `if (!typeResult.valid) return typeResult`
abbrev pub and_then : EvidenceValidationResult → EvidenceValidationResult → EvidenceValidationResult
and_then valid next = next
and_then error next = error

unfoldable pub validate_evidence_file : String → List ℕ → EvidenceValidationResult
unfolding validate_evidence_magic_bytes validate_evidence_file_type
validate_evidence_file mime_type buffer =
    if ltb max_evidence_file_size (length buffer)
    then too_large
    else and_then (validate_evidence_file_type mime_type)
        (validate_evidence_magic_bytes mime_type buffer)
