-- ===== src/Oracle/Table.antt =====
-- The table OracleReading of prisma/schema.prisma: an interface of the database calls that
-- src/oracle/oracle.service.ts makes, with one row for each key, source and bucket.
use parashield_backend.Base.{
  ℕ, ◌≡◌, ap, ◌∙◌, and_parts, ==_iff, Bool, true, false, ◌&&◌, Option, none, some, List, [], ◌∷◌,
  ◌==◌, if◌then◌else◌,
}
use parashield_backend.Base.Int.{ℤ}
use parashield_backend.Oracle.Reading.{Number, Reading, bucket_start_for, oracle_bucket_ms}

-- The unique index `key_source_bucket`.
pub record Slot : Type 0 where
  pub key : ℕ
  pub source : ℕ
  pub bucket_start : ℕ

pub record Row : Type 0 where
  pub data_type : ℕ
  pub value : ℤ
  pub confidence : Number
  pub submitted_at : ℕ
  pub on_chain_submitted : Bool
  pub on_chain_tx_hash : Option ℕ

abbrev pub Contents : Type 0
Contents = Slot → Option Row

abbrev pub slot_eq : Slot → Slot → Bool
slot_eq a b = (a.key == b.key) && (a.source == b.source) && (a.bucket_start == b.bucket_start)

-- The `where` of the calls for a reading.
unfoldable pub slot_of : Reading → Slot
slot_of r = record {
  key = r.key;
  source = r.source;
  bucket_start = bucket_start_for r.timestamp oracle_bucket_ms;
}

-- An upsert: the reading, its value as BigInt, and the time of the call.
pub record Write : Type 0 where
  pub reading : Reading
  pub value : ℤ
  pub at : ℕ

-- The row that the upsert leaves: `update` of a row that is there, `create` otherwise.
unfoldable pub row_after : Write → Option Row → Row
row_after w none = record {
  data_type = w.reading.data_type;
  value = w.value;
  confidence = w.reading.confidence;
  submitted_at = w.at;
  on_chain_submitted = false;
  on_chain_tx_hash = none;
}
row_after w (some row) = record row {
  data_type = w.reading.data_type;
  value = w.value;
  confidence = w.reading.confidence;
  submitted_at = w.at;
}

-- What an upsert, or a list of them in order, makes of the contents of the table.
abbrev pub written : Write → Contents → Contents
written w rows slot =
    if slot_eq slot (slot_of w.reading) then some (row_after w (rows slot)) else rows slot

abbrev pub replay : List Write → Contents → Contents
replay [] rows = rows
replay (w ∷ ws) rows = replay ws (written w rows)

-- `updateMany` on one slot: the rows that it counts, and what it makes of the row.
abbrev pub matches : (Row → Bool) → Option Row → Bool
matches test none = false
matches test (some row) = test row

abbrev pub updated : (Row → Bool) → (Row → Row) → Option Row → Option Row
updated test change none = none
updated test change (some row) = if test row then some (change row) else some row

-- Whether the call did not throw.
abbrev pub succeeded : Option ℕ → Bool
succeeded none = false
succeeded (some n) = true

-- The database calls. `false` or `none` beside the new state is an exception; a call that throws has
-- not changed a row, and `$transaction` applies all of its upserts in their order or none.
pub record Table : Type 1 where
  pub State : Type 0
  pub row : Slot → State → Option Row
  pub upsert : Write → State → Bool × State
  pub transaction : List Write → State → Bool × State
  pub update_many : Slot → (Row → Bool) → (Row → Row) → State → Option ℕ × State
  pub row-upsert :
      (w : Write) (s : State) (x : Slot)
      → row x (upsert w s).1 ≡ (if (upsert w s).0 then written w (λ y. row y s) x else row x s)
  pub row-transaction :
      (ws : List Write) (s : State) (x : Slot)
      → row x (transaction ws s).1
        ≡ (if (transaction ws s).0 then replay ws (λ y. row y s) x else row x s)
  -- the count, and the rows: those of the slot, where the call did not throw
  pub count-update_many :
      (x : Slot) (test : Row → Bool) (change : Row → Row) (s : State) (n : ℕ)
      → (update_many x test change s).0 ≡ some n
      → n ≡ (if matches test (row x s) then 1 else 0)
  pub row-update_many :
      (x : Slot) (test : Row → Bool) (change : Row → Row) (s : State) (y : Slot)
      → row y (update_many x test change s).1 ≡ (
          if succeeded (update_many x test change s).0 && slot_eq y x
          then updated test change (row y s)
          else row y s)

pub slot_eq-eq : (a b : Slot) → slot_eq a b ≡ true → a ≡ b
slot_eq-eq a b h =
    let (kl, m) =
      and_parts ((a.key == b.key) && (a.source == b.source)) (a.bucket_start == b.bucket_start) h in
    let (k, l) = and_parts (a.key == b.key) (a.source == b.source) kl in
    let k' : a.key ≡ b.key = (==_iff a.key b.key).0 k in
    let l' : a.source ≡ b.source = (==_iff a.source b.source).0 l in
    let m' : a.bucket_start ≡ b.bucket_start = (==_iff a.bucket_start b.bucket_start).0 m in
    ap (λ v. record { key = v; source = a.source; bucket_start = a.bucket_start }) k'
    ∙ ap (λ v. record { key = b.key; source = v; bucket_start = a.bucket_start }) l'
    ∙ ap (λ v. record { key = b.key; source = b.source; bucket_start = v }) m'
