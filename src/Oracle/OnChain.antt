-- ===== src/Oracle/OnChain.antt =====
-- src/oracle/oracle.service.ts: the claim on the submission of a reading's slot, the record of its
-- transaction and the release. A result of `none` or `false` is an exception of the database.
pub mod Marks
pub mod Exclusive
use parashield_backend.Base.{
  ℕ, ◌+◌, Bool, true, false, not, ◌&&◌, Option, none, some, List, [], ◌∷◌, ◌==◌, if◌then◌else◌,
}
use parashield_backend.Oracle.Reading.{Reading}
use parashield_backend.Oracle.Table.{Slot, Row, slot_eq, slot_of, Write, Table, succeeded}

abbrev pub is_open : Row → Bool
is_open row = not row.on_chain_submitted

abbrev pub close : Row → Row
close row = record row { on_chain_submitted = true }

abbrev pub any_row : Row → Bool
any_row row = true

abbrev pub set_hash : ℕ → Row → Row
set_hash hash row = record row { on_chain_tx_hash = some hash }

abbrev pub has_no_hash : Row → Bool
has_no_hash row = elim row.on_chain_tx_hash [ none ↦ true | some hash ↦ false ]

abbrev pub reopen : Row → Row
reopen row = record row { on_chain_submitted = false }

-- `count === 0` gives false.
abbrev pub counted : Option ℕ → Option Bool
counted none = none
counted (some n) = some (if n == 0 then false else true)

module _ (table : Table) where
  open table use {State, upsert, update_many}

  unfoldable pub claim_for_on_chain_submission : Reading → State → Option Bool × State
  claim_for_on_chain_submission r s =
      let (n, t) = update_many (slot_of r) is_open close s in (counted n, t)

  unfoldable pub record_on_chain_submission : Reading → ℕ → State → Bool × State
  record_on_chain_submission r hash s =
      let (n, t) = update_many (slot_of r) any_row (set_hash hash) s in (succeeded n, t)

  unfoldable pub release_on_chain_claim : Reading → State → Bool × State
  release_on_chain_claim r s =
      let (n, t) = update_many (slot_of r) has_no_hash reopen s in (succeeded n, t)

-- A call of any replica on the table.
pub data Call : Type 0 where
  write : Write → Call
  claim : Reading → Call
  record_hash : Reading → ℕ → Call
  release : Reading → Call

abbrev pub is_won : Slot → Reading → Option Bool → ℕ
is_won x r none = 0
is_won x r (some false) = 0
is_won x r (some true) = if slot_eq x (slot_of r) then 1 else 0

abbrev pub releases : Slot → Call → Bool
releases x (write w) = false
releases x (claim r) = false
releases x (record_hash r hash) = false
releases x (release r) = slot_eq x (slot_of r)

module _ (table : Table) where
  open table use {State, upsert}

  -- The calls one after another.
  unfoldable pub make : Call → State → State
  unfolding claim_for_on_chain_submission record_on_chain_submission release_on_chain_claim
  make (write w) s = (upsert w s).1
  make (claim r) s = (claim_for_on_chain_submission table r s).1
  make (record_hash r hash) s = (record_on_chain_submission table r hash s).1
  make (release r) s = (release_on_chain_claim table r s).1

  -- The claims of a slot that a call wins.
  unfoldable pub wins : Slot → Call → State → ℕ
  unfolding claim_for_on_chain_submission
  wins x (write w) s = 0
  wins x (claim r) s = is_won x r (claim_for_on_chain_submission table r s).0
  wins x (record_hash r hash) s = 0
  wins x (release r) s = 0

  unfoldable pub make_all : List Call → State → State
  unfolding make
  make_all [] s = s
  make_all (c ∷ calls) s = make_all calls (make c s)

  unfoldable pub all_wins : Slot → List Call → State → ℕ
  unfolding make wins
  all_wins x [] s = 0
  all_wins x (c ∷ calls) s = wins x c s + all_wins x calls (make c s)
