-- ===== src/Oracle/Worker/Unrecorded.antt =====
-- A submission whose hash cannot be stored.
use parashield_backend.Base.{ℕ, ◌≡◌, refl, ◌∙◌, Bool, true, false, ==_refl, some}
use parashield_backend.Oracle.Reading.{Reading}
use parashield_backend.Oracle.Table.{Slot, Row, slot_eq, slot_of, Table}
use parashield_backend.Oracle.OnChain.{
  any_row, set_hash, has_no_hash, reopen, record_on_chain_submission, release_on_chain_claim,
}
use parashield_backend.Oracle.Worker.{Outside, World, after_record, after_invoke}

slot_eq_refl : (x : Slot) → slot_eq x x ≡ true
slot_eq_refl x = rw (==_refl x.key, ==_refl x.source, ==_refl x.bucket_start) refl

module _ (table : Table) (outside : Outside table) where
  record_failed-row :
      (r : Reading) (hash : ℕ) (db : table.State) (x : Slot)
      → (record_on_chain_submission table r hash db).0 ≡ false
      → table.row x (record_on_chain_submission table r hash db).1 ≡ table.row x db
  unfolding record_on_chain_submission
  record_failed-row r hash db x h =
      rw (table.row-update_many (slot_of r) any_row (set_hash hash) db x, h) refl

  release-row :
      (r : Reading) (db : table.State) (row : Row)
      → table.row (slot_of r) db ≡ some row
      → has_no_hash row ≡ true
      → (release_on_chain_claim table r db).0 ≡ true
      → table.row (slot_of r) (release_on_chain_claim table r db).1 ≡ some (reopen row)
  unfolding release_on_chain_claim
  release-row r db row e n h =
      rw
        (
          table.row-update_many (slot_of r) has_no_hash reopen db (slot_of r),
          h,
          slot_eq_refl (slot_of r),
          e,
          n,
        )
        refl

  after_record-row :
      (r : Reading) (o : Bool × table.State) (w : World table) (row : Row)
      → o.0 ≡ false
      → table.row (slot_of r) o.1 ≡ some row
      → has_no_hash row ≡ true
      → (release_on_chain_claim table r o.1).0 ≡ true
      → table.row (slot_of r) (after_record table outside r o w).db ≡ some (reopen row)
  after_record-row r (true, db) w row f e n h = cc
  after_record-row r (false, db) w row f e n h = release-row r db row e n h

  -- Where the contract call has returned a hash, the call that stores it throws and the release is done,
  -- the slot's row is open for a submission again, although the contract has the reading.
  pub unrecorded_reopens :
      (r : Reading) (hash : ℕ) (db : table.State) (w : World table) (row : Row)
      → table.row (slot_of r) db ≡ some row
      → has_no_hash row ≡ true
      → (record_on_chain_submission table r hash db).0 ≡ false
      → (release_on_chain_claim table r (record_on_chain_submission table r hash db).1).0 ≡ true
      → table.row (slot_of r) (after_invoke table outside r (some hash, db) w).db
        ≡ some (reopen row)
  unfolding after_invoke
  unrecorded_reopens r hash db w row e n f h =
      after_record-row r (record_on_chain_submission table r hash db) _ row f
        (record_failed-row r hash db (slot_of r) f ∙ e) n h
