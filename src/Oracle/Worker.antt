-- ===== src/Oracle/Worker.antt =====
-- src/oracle/oracle.worker.ts: one oracle key of the cycle, from its form to the submission of its
-- reading, and the keys of a cycle one after another.
pub mod Submission
pub mod Unrecorded
use parashield_backend.Base.{
  ℕ, ◌+◌, ◌*◌, Bool, true, false, ◌&&◌, ◌||◌, Option, none, some, List, [], ◌∷◌, ◌++◌, ltb, leb,
  ◌==◌, if◌then◌else◌,
}
use parashield_backend.Base.Int.{ℤ, pos, negsuc, ltb_ℤ}
use parashield_backend.Oracle.Reading.{
  Number, whole, is_below, is_zero, Reading, mock, Screened, skipped, rejected, future, valid,
  screen,
}
use parashield_backend.Oracle.Table.{Table}
use parashield_backend.Oracle.OnChain.{
  claim_for_on_chain_submission, record_on_chain_submission, release_on_chain_claim,
}
use parashield_backend.Oracle.KeyFormat.{
  KeyKind, rainfall_key, flight_key, invalid_format, not_supported, unknown, kind_of,
}

-- `getMinConfidence`, for a value that is unset (or not a finite number) or a whole number.
unfoldable pub min_confidence_of : Option ℤ → ℤ
min_confidence_of none = pos 1
min_confidence_of (some n) = if ltb_ℤ n (pos 0) then pos 1 else n

pub record Metrics : Type 0 where
  pub submitted : ℕ
  pub skipped : ℕ
  pub duplicates : ℕ
  pub invalid : ℕ

module _ (table : Table) where
  open table use {State}

  -- The parts that the worker calls. Each takes the database to the state in which it is answered.
  pub record Outside : Type 0 where
    -- a fetch of the reading of a key, the first or the second one; `none` is an exception
    pub fetch : Bool → List ℕ → Option Reading
    -- `Math.floor(Date.now() / 1000)` when the reading is screened
    pub now_seconds : ℕ
    -- the rest of `persistReading`, for a reading that its screening lets through; whether its promise
    -- is resolved
    pub store : Reading → State → Bool × State
    -- `invokeContract` with `submit_data`, and the hash that it returns
    pub invoke : Reading → State → Option ℕ × State
    -- ORACLE_VERIFIER_CONTRACT is set
    pub has_contract : Bool
    -- ORACLE_MIN_CONFIDENCE
    pub min_confidence : Option ℤ

  -- The worker and the table; `calls` is the history of the contract calls.
  pub record World : Type 0 where
    pub metrics : Metrics
    pub calls : List Reading
    pub db : State

  abbrev pub count_skipped : World → World
  count_skipped w = record w { metrics = record (w.metrics) { skipped = w.metrics.skipped + 1 } }

  abbrev pub count_duplicate : World → World
  count_duplicate w = record w {
    metrics = record (w.metrics) { duplicates = w.metrics.duplicates + 1 };
  }

  abbrev pub count_invalid : World → World
  count_invalid w = record w { metrics = record (w.metrics) { invalid = w.metrics.invalid + 1 } }

  abbrev pub count_submitted : World → World
  count_submitted w = record w {
    metrics = record (w.metrics) { submitted = w.metrics.submitted + 1 };
  }

  module _ (outside : Outside) where
    -- `fetchWithRetry`: a second attempt after a failed first one
    abbrev pub or_retry : Option Reading → Option Reading → Option Reading
    or_retry none second = second
    or_retry (some r) second = some r

    unfoldable pub fetch_with_retry : List ℕ → Option Reading
    fetch_with_retry key = or_retry (outside.fetch false key) (outside.fetch true key)

    -- `persistReading`: it returns without a write for a reading that it skips or whose confidence it
    -- rejects, and throws for one of the future.
    abbrev pub persist_as : Screened → Reading → State → Bool × State
    persist_as skipped r db = (true, db)
    persist_as rejected r db = (true, db)
    persist_as future r db = (false, db)
    persist_as valid r db = outside.store r db

    unfoldable pub persist : Reading → State → Bool × State
    unfolding screen
    persist r db = persist_as (screen outside.now_seconds r) r db

    -- The `catch` of the submission; a failed release is only logged.
    abbrev pub released : Reading → World → World
    released r w = record w { db = (release_on_chain_claim table r w.db).1 }

    -- From the answer of `recordOnChainSubmission`
    abbrev pub after_record : Reading → Bool × State → World → World
    after_record r (true, db) w = record w { db = db }
    after_record r (false, db) w = released r (record w { db = db })

    -- From the answer of `invokeContract`
    unfoldable pub after_invoke : Reading → Option ℕ × State → World → World
    after_invoke r (none, db) w = released r (record w { db = db })
    after_invoke r (some hash, db) w =
        after_record r (record_on_chain_submission table r hash db)
          (count_submitted (record w { db = db }))

    -- From the answer of `claimForOnChainSubmission`
    unfoldable pub after_claim : Reading → Option Bool × State → World → World
    unfolding after_invoke
    after_claim r (none, db) w = record w { db = db }
    after_claim r (some false, db) w = count_duplicate (record w { db = db })
    after_claim r (some true, db) w =
        after_invoke r (outside.invoke r db) (record w { db = db; calls = w.calls ++ (r ∷ []) })

    -- From the answer of `persistReading`
    unfoldable pub after_persist : Reading → Bool × State → World → World
    unfolding after_claim
    after_persist r (false, db) w = record w { db = db }
    after_persist r (true, db) w =
        if is_zero r.confidence || (r.source == mock)
        then record w { db = db }
        else if outside.has_contract
        then after_claim r (claim_for_on_chain_submission table r db) (record w { db = db })
        else record w { db = db }

    -- `processKey` from a reading, or from null
    unfoldable pub process_reading : Option Reading → World → World
    unfolding after_persist persist
    process_reading none w = count_invalid w
    process_reading (some r) w =
        if r.no_data || is_below r.confidence (min_confidence_of outside.min_confidence)
        then count_skipped w
        else after_persist r (persist r w.db) w

    unfoldable pub process_kind : KeyKind → List ℕ → World → World
    unfolding process_reading
    process_kind rainfall_key key w = process_reading (fetch_with_retry key) w
    process_kind flight_key key w = process_reading (fetch_with_retry key) w
    process_kind invalid_format key w = w
    process_kind not_supported key w = w
    process_kind unknown key w = w

    -- `processKey`
    unfoldable pub process_key : List ℕ → World → World
    unfolding process_kind
    process_key key w = process_kind (kind_of key) key w

    -- `processKeysWithConcurrency`, for one key at a time
    unfoldable pub process_keys : List (List ℕ) → World → World
    unfolding process_key
    process_keys [] w = w
    process_keys (key ∷ keys) w = process_keys keys (process_key key w)
