-- ===== src/Policy/Status.antt =====
-- src/policy/policy-status.machine.ts: the transition table and its two functions. The keys of the
-- table are constructors; `other` is a string that is no key.
pub mod Graph
use Prim.Native.String.{String}
use text.Mathlib.Text.{◌==◌ as str_eq}
use parashield_backend.Base.{
  ℕ, ◌==◌, Bool, true, false, Option, none, some, List, [], ◌∷◌, ◌≡◌, refl, any, if◌then◌else◌,
}

pub data PolicyStatus : Type 0 where
  active processing expired cancelled claimed error : PolicyStatus
  other : String → PolicyStatus

abbrev index : PolicyStatus → ℕ
index active = 0
index processing = 1
index expired = 2
index cancelled = 3
index claimed = 4
index error = 5
index (other s) = 6

-- `===` on the strings
abbrev pub status_eq : PolicyStatus → PolicyStatus → Bool
status_eq (other s) (other t) = str_eq s t
status_eq a b = index a == index b

pub eq_active : (a : PolicyStatus) → status_eq a active ≡ true → a ≡ active
eq_active active h = refl
eq_active a h = cc

pub eq_processing : (a : PolicyStatus) → status_eq a processing ≡ true → a ≡ processing
eq_processing processing h = refl
eq_processing a h = cc

-- `VALID_TRANSITIONS[from]`; `none` is a missing key. A status that is none of the six is no property of
-- Object.prototype either.
pub valid_transitions : PolicyStatus → Option (List PolicyStatus)
valid_transitions active = some (expired ∷ cancelled ∷ claimed ∷ processing ∷ error ∷ [])
valid_transitions processing = some (claimed ∷ active ∷ error ∷ [])
valid_transitions expired = some []
valid_transitions cancelled = some []
valid_transitions claimed = some []
valid_transitions error = some []
valid_transitions (other s) = none

unfoldable pub can_transition : PolicyStatus → PolicyStatus → Bool
unfolding valid_transitions
can_transition from to = elim (valid_transitions from) [
  | none ↦ false
  | some allowed ↦ any (λ s. status_eq s to) allowed
]

-- `none` is the BadRequestException
unfoldable pub transition : PolicyStatus → PolicyStatus → Option PolicyStatus
unfolding can_transition
transition current next = if can_transition current next then some next else none
