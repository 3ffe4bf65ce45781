-- ===== src/Tests/Policy.antt =====
-- Witnesses for Policy: statuses, premiums, refunds and rate versions.
use parashield_backend.Base.{
  ℕ, ◌+◌, ◌*◌, ◌^◌, ◌≤◌, ◌<◌, ◌≡◌, ◌↔◌, arith, Option, none, some, List, [], ◌∷◌, true,
}
use parashield_backend.Policy.Status.{active, expired, can_transition, transition}
use parashield_backend.Policy.Status.Graph.{◌⟶◌, transition_iff}
use parashield_backend.Policy.Premium.{calculate_premium, PremiumRateTemplate}
use parashield_backend.Policy.Premium.Bounds.{InBounds, premium_is_ceiling}

transition_iff_example :
    ((can_transition active expired ≡ true) ↔ (active ⟶ expired))
    × ((active ⟶ expired) → transition active expired ≡ some expired)
    × (¬ (active ⟶ expired) → transition active expired ≡ none)
transition_iff_example = transition_iff active expired

in_bounds : InBounds 5000 500 45
in_bounds = record {
  coverage_low = omega arith;
  coverage_high = omega arith;
  rate_low = omega arith;
  rate_high = omega arith;
  duration_low = omega arith;
  duration_high = omega arith;
}

premium_is_ceiling_example :
    (p : ℕ) × (calculate_premium 5000 500 45 ≡ some p)
    × (5000 * 500 * 45 ≤ p * 300000)
    × (p * 300000 < 5000 * 500 * 45 + 300000)
    × (1 ≤ p)
    × (p < 2 ^ 53)
premium_is_ceiling_example = premium_is_ceiling 5000 500 45 in_bounds

abbrev template : PremiumRateTemplate
template = record { premium_rate = 500; premium_rate_version = 1 }

abbrev updates : List (Option ℕ)
updates = some 500 ∷ none ∷ some 650 ∷ []
