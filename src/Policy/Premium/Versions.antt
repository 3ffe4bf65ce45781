-- ===== src/Policy/Premium/Versions.antt =====
-- What the versions of a product's premium rate promise over any sequence of updates.
use parashield_backend.Base.{ℕ, ◌≤◌, ◌≡◌, refl, Option, none, some, List, [], ◌∷◌, arith}
use parashield_backend.Policy.Premium.{
  PremiumRateTemplate, next_premium_rate_version, update_rate, snapshot_premium_rate,
}

pub update_rates : PremiumRateTemplate → List (Option ℕ) → PremiumRateTemplate
update_rates t [] = t
update_rates t (u ∷ us) = update_rates (update_rate t u) us

-- What one update, and then several, do to the version: it grows, or the rate is the same.
abbrev pub Follows : PremiumRateTemplate → PremiumRateTemplate → Type 0
Follows t u =
    (t.premium_rate_version ≤ u.premium_rate_version)
    × (t.premium_rate_version ≡ u.premium_rate_version → t.premium_rate ≡ u.premium_rate)

update_rate-Follows : (t : PremiumRateTemplate) (u : Option ℕ) → Follows t (update_rate t u)
unfolding update_rate next_premium_rate_version
update_rate-Follows t none = (omega arith, λ e. refl)
update_rate-Follows t (some r) = ground arith

-- Over any updates of a product the version never falls, and a policy that was sold under a version
-- holds the rate that any later template of the same version has: one version, one rate.
pub version_identifies_rate :
    (t : PremiumRateTemplate) (us : List (Option ℕ))
    → Follows (snapshot_premium_rate t) (update_rates t us)
unfolding update_rates snapshot_premium_rate
version_identifies_rate t [] = (omega arith, λ e. refl)
version_identifies_rate t (u ∷ us) =
    let first = update_rate-Follows t u in
    let rest = version_identifies_rate (update_rate t u) us in ground arith
