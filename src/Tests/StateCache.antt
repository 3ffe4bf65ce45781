-- ===== src/Tests/StateCache.antt =====
-- Witnesses for Claims.StateCache: an ACTIVE policy whose trigger is met, in an empty cache.
use parashield_backend.Base.{◌≡◌, ◌↔◌, arith, true, false, none, [], ◌∷◌}
use parashield_backend.Policy.Status.{active}
use parashield_backend.Claims.StateCache.{
  TimeIndependentPolicyState, has_in_flight_claim, apply_time_evaluation, Cache, answers,
  begin_lookup, end_lookup, invalidate,
}
use parashield_backend.Claims.StateCache.Evaluation.{can_claim_iff}
use parashield_backend.Claims.StateCache.Staleness.{invalidation_lost}

abbrev state : TimeIndependentPolicyState
state = record {
  policy_id = 7;
  raw_status = active;
  end_time = 5000;
  trigger_met = true;
  claims_count = 0;
  has_paid_claim = false;
  active_claim = none;
}

-- A lookup of policy 7 has begun to compute.
abbrev computing : Cache
computing = record {
  memory = [];
  in_flight = 7 ∷ [];
  metrics = record { hits = 0; misses = 1; computations = 1; invalidations = 0; db_queries = 1 };
}

can_claim_iff_example : ((apply_time_evaluation 5000 state).can_claim ≡ true) ↔ (
    (active ≡ active)
    × (true ≡ true)
    × (false ≡ false)
    × (has_in_flight_claim state ≡ false)
    × (state.end_time ≡ state.end_time))
can_claim_iff_example = can_claim_iff 5000 state

invalidation_lost_example :
    (begin_lookup 7 5000 20000 none (end_lookup 7 4000 4000 state (invalidate 7 computing)).1).0
    ≡ answers (apply_time_evaluation 5000 state)
invalidation_lost_example = invalidation_lost 7 4000 4000 20000 5000 state computing (omega arith)
