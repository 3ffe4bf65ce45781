-- ===== src/Oracle/Buffer.antt =====
-- src/oracle/oracle.service.ts, `persistReading`, `flushBuffer` and the shutdown hook, as a machine
-- whose steps are the stretches of code between two awaits. An answer of the database is a step.
pub mod Bounds
pub mod Delivery
pub mod Rows
pub mod Drain
use parashield_backend.Base.{
  ℕ, ◌/◌, Bool, true, false, not, ◌||◌, Option, none, some, List, [], ◌∷◌, ◌++◌, map, length, take,
  drop, keep, leb, ◌==◌, if◌then◌else◌,
}
use parashield_backend.Oracle.Reading.{Reading, Screened, skipped, rejected, future, valid, screen}
use parashield_backend.Oracle.Table.{Write, Table}

-- A BufferedReading; `id` stands for its promise.
pub record BufferedReading : Type 0 where
  pub id : ℕ
  pub reading : Reading

-- A promise that has been settled: resolved by the write, or rejected.
pub record Settled : Type 0 where
  pub item : BufferedReading
  pub write : Option Write

-- `isFlushing`, and what the flush awaits: the transaction of a batch, or the single upsert of the
-- first of the batch's items that are left.
pub data Flush : Type 0 where
  idle : Flush
  awaits_batch : List BufferedReading → Flush
  awaits_single : BufferedReading → List BufferedReading → Flush

-- How a call of `persistReading` stands at its first await: it returned, threw, or waits.
pub data Persisted : Type 0 where
  returned : Persisted
  bad_request : Persisted
  unavailable : Persisted
  pending : Persisted

-- `executeUpsertBatch` makes all requests first, and `BigInt` may throw there.
abbrev pub write_of : ℕ → Reading → Option Write
write_of at r = elim r.value [
  | none ↦ none
  | some value ↦ some (record { reading = r; value = value; at = at })
]

abbrev pub cons_write : Option Write → Option (List Write) → Option (List Write)
cons_write none ws = none
cons_write (some w) none = none
cons_write (some w) (some ws) = some (w ∷ ws)

unfoldable pub writes_of : ℕ → List BufferedReading → Option (List Write)
writes_of at [] = some []
writes_of at (i ∷ items) = cons_write (write_of at i.reading) (writes_of at items)

-- The batch's promises, each resolved by its own write.
abbrev pub resolved : ℕ → List BufferedReading → List Settled
resolved at items = map (λ i. record { item = i; write = write_of at i.reading }) items

pub data Event : Type 0 where
  -- a call at a time in ms, with its promise and reading
  persist : ℕ → BufferedReading → Event
  timer_fires : Event
  -- the database answers the flush, at a time in ms
  answer : ℕ → Event
  shutdown : Event

module _ (table : Table) where
  open table use {State, upsert, transaction}

  -- The service. `cached_keys` are the keys of `readingCache`; `settled` is the history of the
  -- promises, oldest first.
  pub record Service : Type 0 where
    pub buffer : List BufferedReading
    pub timer : Bool
    pub flush : Flush
    pub cached_keys : List ℕ
    pub settled : List Settled
    pub db : State

  -- `executeUpsertBatch` and `executeSingleUpsert`, before the database is asked
  abbrev pub upsert_batch : Option (List Write) → State → Bool × State
  upsert_batch none db = (false, db)
  upsert_batch (some ws) db = transaction ws db

  abbrev pub upsert_single : Option Write → State → Bool × State
  upsert_single none db = (false, db)
  upsert_single (some w) db = upsert w db

  unfoldable pub execute_upsert_batch : ℕ → List BufferedReading → State → Bool × State
  unfolding writes_of
  execute_upsert_batch at items db = upsert_batch (writes_of at items) db

  -- One item settled by a single upsert.
  abbrev pub settle : BufferedReading → Option Write → Bool × State → Service → Service
  settle i w (true, db) s = record s {
    db = db;
    cached_keys = keep (λ k. not (k == i.reading.key)) s.cached_keys;
    settled = s.settled ++ (record { item = i; write = w } ∷ []);
  }
  settle i w (false, db) s = record s {
    db = db;
    settled = s.settled ++ (record { item = i; write = none } ∷ []);
  }

  unfoldable pub execute_single_upsert : ℕ → BufferedReading → Service → Service
  execute_single_upsert at i s =
      let w = write_of at i.reading in settle i w (upsert_single w s.db) s

  abbrev pub is_key_of : List BufferedReading → ℕ → Bool
  is_key_of [] k = false
  is_key_of (i ∷ items) k = (k == i.reading.key) || is_key_of items k

  -- The items of a batch whose transaction has been applied.
  abbrev pub land : ℕ → List BufferedReading → State → Service → Service
  land at items db s = record s {
    db = db;
    cached_keys = keep (λ k. not (is_key_of items k)) s.cached_keys;
    settled = s.settled ++ resolved at items;
  }

  module _ (batch_size max_buffer_size : ℕ) where
    -- The head of the loop of `flushBuffer`; when the buffer is empty, its `finally`.
    abbrev pub splice : List BufferedReading → Service → Service
    splice [] s = record s { flush = idle }
    splice (i ∷ items) s = record s {
      buffer = drop batch_size (i ∷ items);
      flush = awaits_batch (take batch_size (i ∷ items));
    }

    unfoldable pub next_batch : Service → Service
    next_batch s = splice s.buffer s

    -- `flushBuffer` up to its first await
    unfoldable pub begin_flush : Flush → List BufferedReading → Service → Service
    unfolding next_batch
    begin_flush idle [] s = s
    begin_flush idle (i ∷ items) s = next_batch s
    begin_flush (awaits_batch items) buffer s = s
    begin_flush (awaits_single i items) buffer s = s

    unfoldable pub flush_buffer : Service → Service
    unfolding begin_flush
    flush_buffer s = begin_flush s.flush s.buffer (record s { timer = false })

    -- The fallback to individual inserts, and on to the next batch.
    unfoldable pub next_single : List BufferedReading → Service → Service
    unfolding next_batch
    next_single [] s = next_batch s
    next_single (i ∷ items) s = record s { flush = awaits_single i items }

    unfoldable pub after_batch : ℕ → List BufferedReading → Bool × State → Service → Service
    unfolding next_batch next_single
    after_batch at items (true, db) s = next_batch (land at items db s)
    after_batch at items (false, db) s = next_single items (record s { db = db })

    -- `flushBuffer` from the answer that it awaits to its next await or its end
    unfoldable pub resume_flush : ℕ → Flush → Service → Service
    unfolding execute_upsert_batch execute_single_upsert next_batch next_single after_batch
    resume_flush at idle s = s
    resume_flush at (awaits_batch items) s =
        after_batch at items (execute_upsert_batch at items s.db) s
    resume_flush at (awaits_single i items) s = next_single items (execute_single_upsert at i s)

    -- The end of `persistReading`: the push, and a flush or the timer.
    unfoldable pub push : BufferedReading → Service → Service
    unfolding flush_buffer
    push i s =
        let t = record s { buffer = s.buffer ++ (i ∷ []) } in
        if leb batch_size (length t.buffer) then flush_buffer t else record t { timer = true }

    unfoldable pub buffered : BufferedReading → Service → Persisted × Service
    unfolding push
    buffered i s =
        if leb max_buffer_size (length s.buffer) then (unavailable, s) else (pending, push i s)

    unfoldable pub admit : ℕ → Screened → BufferedReading → Service → Persisted × Service
    unfolding buffered execute_single_upsert
    admit at skipped i s = (returned, s)
    admit at rejected i s = (returned, s)
    admit at future i s = (bad_request, s)
    admit at valid i s =
        if leb batch_size 1 then (pending, execute_single_upsert at i s) else buffered i s

    -- `persistReading` at a time in ms; the direct upsert of a batch size of 1 is one step with its answer.
    unfoldable pub persist_reading : ℕ → BufferedReading → Service → Persisted × Service
    unfolding admit
    persist_reading at i s = admit at (screen (at / 1000) i.reading) i s

    unfoldable pub step : Event → Service → Service
    unfolding persist_reading flush_buffer resume_flush
    step (persist at i) s = (persist_reading at i s).1
    step timer_fires s = if s.timer then flush_buffer s else s
    step (answer at) s = resume_flush at s.flush s
    step shutdown s = flush_buffer s

    unfoldable pub run : List Event → Service → Service
    unfolding step
    run [] s = s
    run (e ∷ events) s = run events (step e s)
