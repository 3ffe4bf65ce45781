-- ===== src/Tests/Oracle.antt =====
-- Witnesses for Oracle: a table in memory whose first calls can fail.
use parashield_backend.Base.{
  ℕ, zero, suc, ◌≤◌, ◌≡◌, refl, Bool, true, false, ◌&&◌, Option, none, some, List, [], ◌∷◌, ◌++◌,
  if◌then◌else◌, arith,
}
use parashield_backend.Base.Int.{pos}
use parashield_backend.Oracle.Reading.{Reading, whole}
use parashield_backend.Oracle.Table.{
  Slot, Row, Contents, slot_eq, slot_of, Write, written, replay, matches, updated, succeeded, Table,
}
use parashield_backend.Oracle.Buffer.{
  BufferedReading, idle, awaits_batch, Event, persist, answer, shutdown, Service, run,
}
use parashield_backend.Oracle.Buffer.Bounds.{IsSound, run-IsSound}
use parashield_backend.Oracle.Buffer.Delivery.{readings, all_accepted, run_delivers}
use parashield_backend.Oracle.Buffer.Rows.{Mirrors, landed, run-Mirrors}
use parashield_backend.Oracle.Buffer.Drain.{answers, IsDrained, answers-IsDrained}
use parashield_backend.Oracle.OnChain.{
  record_on_chain_submission, release_on_chain_claim, Call, write, claim, record_hash, release,
  reopen, all_wins,
}
use parashield_backend.Oracle.OnChain.Exclusive.{claims_once, recorded_is_final}
use parashield_backend.Oracle.Worker.{Outside, World, process_key, after_invoke}
use parashield_backend.Oracle.Worker.Submission.{CallsAtMost, submits_only_claimed}
use parashield_backend.Oracle.Worker.Unrecorded.{unrecorded_reopens}

-- The rows, and how many of the next calls throw.
record Memory : Type 0 where
  rows : Contents
  failures : ℕ

abbrev attempt : ℕ → Contents → Contents → Bool × Memory
attempt zero before after = (true, record { rows = after; failures = 0 })
attempt (suc n) before after = (false, record { rows = before; failures = n })

attempt-rows :
    (n : ℕ) (before after : Contents) (x : Slot)
    → (attempt n before after).1.rows x ≡ (if (attempt n before after).0 then after x else before x)
attempt-rows zero before after x = refl
attempt-rows (suc n) before after x = refl

abbrev count_if : Bool → ℕ
count_if b = if b then 1 else 0

abbrev updated_at : Slot → (Row → Bool) → (Row → Row) → Contents → Contents
updated_at x test change rows = λ y. if slot_eq y x then updated test change (rows y) else rows y

abbrev update_attempt : ℕ → Slot → (Row → Bool) → (Row → Row) → Contents → Option ℕ × Memory
update_attempt zero x test change rows = (
  some (count_if (matches test (rows x))),
  record { rows = updated_at x test change rows; failures = 0 },
)
update_attempt (suc n) x test change rows = (none, record { rows = rows; failures = n })

update_attempt-count :
    (f : ℕ) (x : Slot) (test : Row → Bool) (change : Row → Row) (rows : Contents) (n : ℕ)
    → (update_attempt f x test change rows).0 ≡ some n
    → n ≡ (if matches test (rows x) then 1 else 0)
update_attempt-count zero x test change rows n e = cc
update_attempt-count (suc f) x test change rows n e = cc

update_attempt-rows :
    (f : ℕ) (x : Slot) (test : Row → Bool) (change : Row → Row) (rows : Contents) (y : Slot)
    → (update_attempt f x test change rows).1.rows y ≡ (
        if succeeded (update_attempt f x test change rows).0 && slot_eq y x
        then updated test change (rows y)
        else rows y)
update_attempt-rows zero x test change rows y = refl
update_attempt-rows (suc f) x test change rows y = refl

abbrev table : Table
table = record {
  State = Memory;
  row = λ x s. s.rows x;
  upsert = λ w s. attempt s.failures s.rows (written w s.rows);
  transaction = λ ws s. attempt s.failures s.rows (replay ws s.rows);
  update_many = λ x test change s. update_attempt s.failures x test change s.rows;
  row-upsert = λ w s x. attempt-rows s.failures s.rows (written w s.rows) x;
  row-transaction = λ ws s x. attempt-rows s.failures s.rows (replay ws s.rows) x;
  count-update_many =
      λ x test change s n e. update_attempt-count s.failures x test change s.rows n e;
  row-update_many = λ x test change s y. update_attempt-rows s.failures x test change s.rows y;
}

abbrev no_rows : Contents
no_rows = λ x. none

abbrev rain : ℕ → Reading
rain key = record {
  data_type = 1;
  key = key;
  value = some (pos 324_000_000);
  confidence = whole (pos 95);
  timestamp = 1_000_000;
  source = 1;
  no_data = false;
}

abbrev item : ℕ → BufferedReading
item id = record { id = id; reading = rain id }

abbrev start : ℕ → Service table
start failures = record {
  buffer = [];
  timer = false;
  flush = idle;
  cached_keys = 1 ∷ 2 ∷ [];
  settled = [];
  db = record { rows = no_rows; failures = failures };
}

-- Three calls with a batch size of 2, a batch that fails once, and a shutdown.
abbrev events : List Event
events =
    persist 2_000_000 (item 1)
    ∷ persist 2_000_000 (item 2)
    ∷ persist 2_000_001 (item 3)
    ∷ answer 2_000_002
    ∷ answer 2_000_003
    ∷ shutdown
    ∷ []

run-IsSound_example : IsSound table 2 3 (run table 2 3 events (start 1))
run-IsSound_example =
    run-IsSound table 2 3 events (start 1) (record { fits = omega arith; awaited = refl })

run_delivers_example :
    readings table 2 3 (run table 2 3 events (start 1))
    ≡ readings table 2 3 (start 1) ++ all_accepted table 2 3 events (start 1)
run_delivers_example = run_delivers table 2 3 events (start 1) (omega arith)

run-Mirrors_example : Mirrors table 2 3 no_rows (run table 2 3 events (start 1))
unfolding landed
run-Mirrors_example = run-Mirrors table 2 3 no_rows events (start 1) (record { rows = refl })

-- A flush of two batches.
abbrev flushing : Service table
flushing = record (start 1) { buffer = item 3 ∷ []; flush = awaits_batch (item 1 ∷ item 2 ∷ []) }

answers-IsDrained_example :
    IsDrained table 2 3 (answers table 2 3 (7 ∷ 8 ∷ 9 ∷ 10 ∷ 11 ∷ []) flushing)
answers-IsDrained_example =
    answers-IsDrained table 2 3 (7 ∷ 8 ∷ 9 ∷ 10 ∷ 11 ∷ []) flushing (omega arith)
      (record { due = λ e. cc }) (omega arith)

abbrev first_write : Write
first_write = record { reading = rain 1; value = pos 324_000_000; at = 1 }

-- Two replicas for one slot.
abbrev calls : List Call
calls = write first_write ∷ claim (rain 1) ∷ claim (rain 1) ∷ record_hash (rain 1) 77 ∷ []

claims_once_example :
    all_wins table (slot_of (rain 1)) calls (record { rows = no_rows; failures = 0 }) ≤ 1
claims_once_example =
    claims_once table (slot_of (rain 1)) calls (record { rows = no_rows; failures = 0 }) refl

abbrev recorded_row : Row
recorded_row = record {
  data_type = 1;
  value = pos 324_000_000;
  confidence = whole (pos 95);
  submitted_at = 1;
  on_chain_submitted = true;
  on_chain_tx_hash = some 77;
}

abbrev recorded_rows : Contents
recorded_rows = λ x. some recorded_row

recorded_is_final_example :
    all_wins table
      (slot_of (rain 1))
      (release (rain 1) ∷ calls)
      (record { rows = recorded_rows; failures = 0 })
    ≡ 0
recorded_is_final_example =
    recorded_is_final table (slot_of (rain 1)) (release (rain 1) ∷ calls)
      (record { rows = recorded_rows; failures = 0 }) refl

-- rainfall:-1.5,34:2026-06
abbrev crop_key : List ℕ
crop_key =
    b'r' ∷ b'a' ∷ b'i' ∷ b'n' ∷ b'f' ∷ b'a' ∷ b'l' ∷ b'l' ∷ b':' ∷ b'-' ∷ b'1' ∷ b'.' ∷ b'5' ∷ b','
    ∷ b'3' ∷ b'4' ∷ b':' ∷ b'2' ∷ b'0' ∷ b'2' ∷ b'6' ∷ b'-' ∷ b'0' ∷ b'6' ∷ []

-- The database answers, and the contract too.
abbrev outside : Outside table
outside = record {
  fetch = λ second key. some (rain 1);
  now_seconds = 2_000;
  store = λ r s. (true, s);
  invoke = λ r s. (some 77, s);
  has_contract = true;
  min_confidence = none;
}

abbrev open_row : Row
open_row = record recorded_row { on_chain_submitted = false; on_chain_tx_hash = none }

abbrev claimed_row : Row
claimed_row = record recorded_row { on_chain_tx_hash = none }

abbrev world : Row → ℕ → World table
world row failures = record {
  metrics = record { submitted = 0; skipped = 0; duplicates = 0; invalid = 0 };
  calls = [];
  db = record { rows = λ x. some row; failures = failures };
}

submits_only_claimed_example :
    CallsAtMost table outside crop_key
      (world open_row 0)
      (process_key table outside crop_key (world open_row 0))
submits_only_claimed_example = submits_only_claimed table outside crop_key (world open_row 0)

-- The call that stores the hash fails.
unrecorded_reopens_example :
    table.row
      (slot_of (rain 1))
      (after_invoke table outside
        (rain 1)
        (some 77, (world claimed_row 1).db)
        (world claimed_row 1)).db
    ≡ some (reopen claimed_row)
unfolding record_on_chain_submission release_on_chain_claim
unrecorded_reopens_example =
    unrecorded_reopens table outside (rain 1) 77 (world claimed_row 1).db (world claimed_row 1)
      claimed_row refl refl refl refl
