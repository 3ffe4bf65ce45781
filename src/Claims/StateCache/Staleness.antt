-- ===== src/Claims/StateCache/Staleness.antt =====
-- What an invalidation of src/claims/policy-state-cache.service.ts achieves, and what it does not.
use parashield_backend.Base.{
  ℕ, ◌+◌, ◌<◌, ◌≡◌, refl, inl, inr, true, false, arith, none, List, [], ◌∷◌, any, ltb, ◌==◌,
  ==_refl, Bool-cases,
}
use parashield_backend.Claims.StateCache.{
  TimeIndependentPolicyState, Entry, Cache, ttl_ms, get, delete, answers, computes, remove,
  begin_lookup, end_lookup, invalidate_memory_only, invalidate, apply_time_evaluation,
}

get-delete : (id : ℕ) (m : List Entry) → get id (delete id m) ≡ none
get-delete id [] = refl
get-delete id (e ∷ m) = elim (Bool-cases (e.key == id)) [
  | inl same ↦ rw same (get-delete id m)
  | inr other ↦ rw other (rw other (get-delete id m))
]

any-remove : (id : ℕ) (ids : List ℕ) → any (λ k. k == id) (remove id ids) ≡ false
any-remove id [] = refl
any-remove id (k ∷ ids) = elim (Bool-cases (k == id)) [
  | inl same ↦ rw same (any-remove id ids)
  | inr other ↦ rw other (rw other (any-remove id ids))
]

-- After an invalidation a lookup that Redis does not answer computes afresh.
pub invalidate-computes :
    (id now clock : ℕ) (c : Cache) → (begin_lookup id now clock none (invalidate id c)).0 ≡ computes
unfolding begin_lookup invalidate invalidate_memory_only
invalidate-computes id now clock c =
    let free = any-remove id c.in_flight in
    let gone = get-delete id c.memory in rw (free, gone) refl

-- An invalidation while a computation is in flight is lost: when the computation ends, with the state
-- that it read before, the next lookup answers with that state until the entry expires.
pub invalidation_lost :
    (id now clock later at : ℕ) (stale : TimeIndependentPolicyState) (c : Cache)
    → later < clock + ttl_ms
    → (begin_lookup id at later none (end_lookup id now clock stale (invalidate id c)).1).0
      ≡ answers (apply_time_evaluation at stale)
unfolding begin_lookup end_lookup invalidate invalidate_memory_only
invalidation_lost id now clock later at stale c fresh =
    let free = any-remove id (remove id c.in_flight) in
    let valid : ltb later (clock + ttl_ms) ≡ true = ground arith in
    rw (free, ==_refl id, valid) refl
