-- ===== src/Claims/StateCache.antt =====
-- src/claims/policy-state-cache.service.ts: the state of a policy that does not depend on the time,
-- its evaluation at a time, and the cache. A lookup that computes is two steps, before and after its
-- awaits, so that invalidations can come between. Redis' answer is an argument, `none` where it has
-- none, fails or is not configured. The fields that are only copied are left out.
pub mod Evaluation
pub mod Staleness
use parashield_backend.Base.{
  ℕ, ◌+◌, ◌*◌, Bool, true, false, not, ◌&&◌, ◌||◌, Option, none, some, List, [], ◌∷◌, any, find,
  keep, length, ltb, leb, ◌==◌, if◌then◌else◌,
}
use parashield_backend.Base.Int.{ℤ, pos}
use parashield_backend.Decimal.{
  Value, str, parse_decimal_scaled, parse_fixed_point_bigint, compare_scaled_to_threshold,
}
use parashield_backend.Policy.Status.{PolicyStatus, active, expired, status_eq}
use parashield_backend.Claims.Rows
use parashield_backend.Claims.Rows.{Policy, Claim, claim_status_eq, Product}
use parashield_backend.Claims.Database.{is_unsettled}
use parashield_backend.Claims.AutoProcess.Evaluate.{comparison_of}

pub record TimeIndependentPolicyState : Type 0 where
  pub policy_id : ℕ
  pub raw_status : PolicyStatus
  pub end_time : ℕ
  pub trigger_met : Bool
  pub claims_count : ℕ
  pub has_paid_claim : Bool
  pub active_claim : Option Claim

abbrev pub has_in_flight_claim : TimeIndependentPolicyState → Bool
has_in_flight_claim state = elim state.active_claim [ none ↦ false | some c ↦ true ]

pub record DerivedPolicyState : Type 0 where
  pub state : TimeIndependentPolicyState
  pub is_expired : Bool
  pub is_pending_final_period : Bool
  pub effective_status : PolicyStatus
  pub can_claim : Bool
  pub evaluation_timestamp : ℕ

unfoldable pub effective : ℕ → TimeIndependentPolicyState → PolicyStatus
effective now state =
    if status_eq state.raw_status active && ltb state.end_time now
    then expired
    else state.raw_status

unfoldable pub apply_time_evaluation : ℕ → TimeIndependentPolicyState → DerivedPolicyState
unfolding effective
apply_time_evaluation now state = record {
  state = state;
  is_expired = ltb state.end_time now;
  is_pending_final_period = ltb now state.end_time;
  effective_status = effective now state;
  can_claim =
      status_eq (effective now state) active
      && state.trigger_met
      && not state.has_paid_claim
      && not (has_in_flight_claim state)
      && leb state.end_time now;
  evaluation_timestamp = now;
}

-- A threshold that cannot be read counts as 0.
abbrev pub threshold_or_zero : Option ℤ → ℤ
threshold_or_zero none = pos 0
threshold_or_zero (some t) = t

-- The trigger; `none` is the exception of an unreadable reading.
unfoldable pub cached_trigger : Option Value → Product → Option Bool
cached_trigger none product = some false
cached_trigger (some value) product = elim (parse_fixed_point_bigint value 7) [
  | none ↦ none
  | some reading ↦ some (
      compare_scaled_to_threshold reading
        (threshold_or_zero (parse_decimal_scaled (str product.threshold) 7))
        (comparison_of product))
]

-- `computePolicyState` for a policy that exists, with its product, claims and latest reading.
unfoldable pub compute_policy_state :
    Policy → Product → List Claim → Option Value → Option TimeIndependentPolicyState
unfolding cached_trigger
compute_policy_state policy product claims reading = elim (cached_trigger reading product) [
  | none ↦ none
  | some met ↦ some (record {
    policy_id = policy.id;
    raw_status = policy.status;
    end_time = policy.end_time;
    trigger_met = met;
    claims_count = length claims;
    has_paid_claim = any (λ c. claim_status_eq c.status Rows.paid) claims;
    active_claim = find is_unsettled claims;
  })
]

-- An entry of `memoryCache`.
pub record Entry : Type 0 where
  pub key : ℕ
  pub state : TimeIndependentPolicyState
  pub expires_at : ℕ

pub record CacheMetrics : Type 0 where
  pub hits : ℕ
  pub misses : ℕ
  pub computations : ℕ
  pub invalidations : ℕ
  pub db_queries : ℕ

pub record Cache : Type 0 where
  pub memory : List Entry
  pub in_flight : List ℕ
  pub metrics : CacheMetrics

abbrev pub ttl_ms : ℕ
ttl_ms = 60 * 1000

abbrev pub in_memory_max_entries : ℕ
in_memory_max_entries = 2000

-- `Map.get`, `Map.set` and `delete`
abbrev pub get : ℕ → List Entry → Option Entry
get id m = find (λ e. e.key == id) m

abbrev pub set : Entry → List Entry → List Entry
set e m = e ∷ keep (λ f. not (f.key == e.key)) m

abbrev pub delete : ℕ → List Entry → List Entry
delete id m = keep (λ e. not (e.key == id)) m

abbrev pub entry_of : ℕ → TimeIndependentPolicyState → ℕ → Entry
entry_of id state clock = record { key = id; state = state; expires_at = clock + ttl_ms }

-- How a lookup goes on: it awaits a computation in flight, has its answer, or computes.
pub data Found : Type 0 where
  awaits : Found
  answers : DerivedPolicyState → Found
  computes : Found

abbrev pub hit : CacheMetrics → CacheMetrics
hit m = record m { hits = m.hits + 1 }

abbrev pub valid_entry : ℕ → Option Entry → Option TimeIndependentPolicyState
valid_entry clock none = none
valid_entry clock (some e) = if ltb clock e.expires_at then some e.state else none

-- The first part of `getDerivedPolicyState`, up to the query of the database that begins a
-- computation. `now` is its argument, `clock` the time of `Date.now()`, `remote` what Redis answers;
-- no other lookup of the policy comes between its question to Redis and the answer.
unfoldable pub begin_lookup : ℕ → ℕ → ℕ → Option TimeIndependentPolicyState → Cache → Found × Cache
begin_lookup id now clock remote c =
    let m = c.metrics in
    if any (λ k. k == id) c.in_flight
    then (awaits, record c { metrics = hit m })
    else elim (valid_entry clock (get id c.memory)) [
      | some state ↦ (answers (apply_time_evaluation now state), record c { metrics = hit m })
      | none ↦ elim remote [
        | some state ↦ (
          answers (apply_time_evaluation now state),
          record c { memory = set (entry_of id state clock) c.memory; metrics = hit m },
        )
        | none ↦ (
          computes,
          record c {
            in_flight = id ∷ c.in_flight;
            metrics = record m {
              misses = m.misses + 1;
              computations = m.computations + 1;
              db_queries = m.db_queries + 1;
            };
          },
        )
      ]
    ]

abbrev pub remove : ℕ → List ℕ → List ℕ
remove id ids = keep (λ k. not (k == id)) ids

-- The end of a computation that gave a state; the second query of the database lies before it.
unfoldable pub end_lookup :
    ℕ → ℕ → ℕ → TimeIndependentPolicyState → Cache → DerivedPolicyState × Cache
end_lookup id now clock state c =
    let kept = if leb in_memory_max_entries (length c.memory) then [] else c.memory in
    (
      apply_time_evaluation now state,
      record c {
        memory = set (entry_of id state clock) kept;
        in_flight = remove id c.in_flight;
        metrics = record c.metrics { db_queries = c.metrics.db_queries + 1 };
      },
    )

-- The end of a computation that found no policy, or threw.
unfoldable pub end_without_state : ℕ → Cache → Cache
end_without_state id c = record c { in_flight = remove id c.in_flight }

unfoldable pub invalidate_memory_only : ℕ → Cache → Cache
invalidate_memory_only id c = record c {
  memory = delete id c.memory;
  in_flight = remove id c.in_flight;
}

-- `invalidate`, apart from Redis
unfoldable pub invalidate : ℕ → Cache → Cache
unfolding invalidate_memory_only
invalidate id c =
    invalidate_memory_only id
      (record c { metrics = record c.metrics { invalidations = c.metrics.invalidations + 1 } })
