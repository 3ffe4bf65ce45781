-- ===== src/Tests/Evidence.antt =====
-- Claims.Evidence on a PNG file, and on the type name 'constructor'.
use parashield_backend.Base.{ℕ, ◌≤◌, length, ◌≡◌, refl, List, [], ◌∷◌}
use parashield_backend.Claims.Evidence.Accepted.{Signed, accepted_only}
use parashield_backend.Claims.Evidence.{
  type_info, max_evidence_file_size, valid, mismatch, type_error, allowed_evidence_types,
  validate_evidence_file,
}

abbrev png : List ℕ
png = 137 ∷ 80 ∷ 78 ∷ 71 ∷ 13 ∷ []

png_passes : validate_evidence_file "image/png" png ≡ valid
unfolding validate_evidence_file allowed_evidence_types
png_passes = refl

pdf_mismatches : validate_evidence_file "application/pdf" png ≡ mismatch
unfolding validate_evidence_file allowed_evidence_types
pdf_mismatches = refl

constructor_throws : validate_evidence_file "constructor" png ≡ type_error
unfolding validate_evidence_file allowed_evidence_types
constructor_throws = refl

accepted_only_example :
    (length png ≤ max_evidence_file_size)
    × (4 ≤ length png)
    × ((signatures : List (List ℕ)) × (allowed_evidence_types "image/png" ≡ type_info signatures)
        × Signed png signatures)
unfolding validate_evidence_file allowed_evidence_types
accepted_only_example = accepted_only "image/png" png refl
