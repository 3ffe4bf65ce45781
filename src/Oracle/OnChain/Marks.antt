-- ===== src/Oracle/OnChain/Marks.antt =====
-- The marks of one slot's row, and the changes that keep them.
use parashield_backend.Base.{
  ℕ, ◌≤◌, ◌≡◌, refl, ap, inl, inr, ◌⊎◌, sym, ◌∙◌, Bool, true, false, Option, none, some,
  if◌then◌else◌, if_keeps, not, ◌≢◌, Bool-cases, arith,
}
use parashield_backend.Oracle.Reading.{Reading}
use parashield_backend.Oracle.Table.{
  Slot, Row, slot_eq, slot_of, Write, row_after, matches, updated,
}
use parashield_backend.Oracle.OnChain.{
  is_open, close, any_row, set_hash, has_no_hash, reopen, is_won,
}

-- The slot's row is marked as submitted.
abbrev pub is_closed : Option Row → Bool
is_closed none = false
is_closed (some row) = row.on_chain_submitted

-- The slot's row is marked as submitted and carries its transaction.
abbrev pub is_recorded : Option Row → Bool
is_recorded none = false
is_recorded (some row) = if row.on_chain_submitted then not (has_no_hash row) else false

pub written_closed :
    (w : Write) (o : Option Row) → is_closed o ≡ true → is_closed (some (row_after w o)) ≡ true
unfolding row_after
written_closed w none h = cc
written_closed w (some row) h = h

pub close_closed :
    (o : Option Row) → is_closed o ≡ true → is_closed (updated is_open close o) ≡ true
close_closed none h = h
close_closed (some row) h = if_keeps (λ o. is_closed o ≡ true) (is_open row) (λ _. refl) (λ _. h)

pub hash_closed :
    (hash : ℕ) (o : Option Row)
    → is_closed o ≡ true
    → is_closed (updated any_row (set_hash hash) o) ≡ true
hash_closed hash none h = h
hash_closed hash (some row) h = h

pub closed_no_match : (o : Option Row) → is_closed o ≡ true → matches is_open o ≡ false
closed_no_match none h = refl
closed_no_match (some row) h = rw h refl

pub recorded_parts : (a b : Bool) → (if a then not b else false) ≡ true → (a ≡ true) × (b ≡ false)
recorded_parts true false h = (refl, refl)
recorded_parts true true h = cc
recorded_parts false b h = cc

pub recorded_closed : (o : Option Row) → is_recorded o ≡ true → is_closed o ≡ true
recorded_closed none h = h
recorded_closed (some row) h = (recorded_parts row.on_chain_submitted (has_no_hash row) h).0

-- A recorded transaction keeps the slot from being released.
pub written_recorded :
    (w : Write) (o : Option Row) → is_recorded o ≡ true → is_recorded (some (row_after w o)) ≡ true
unfolding row_after
written_recorded w none h = cc
written_recorded w (some row) h = h

pub close_recorded :
    (o : Option Row) → is_recorded o ≡ true → is_recorded (updated is_open close o) ≡ true
close_recorded none h = h
close_recorded (some row) h =
    if_keeps (λ o. is_recorded o ≡ true) (is_open row)
      (λ _. rw (recorded_parts row.on_chain_submitted (has_no_hash row) h).1 refl) (λ _. h)

pub hash_recorded :
    (hash : ℕ) (o : Option Row)
    → is_recorded o ≡ true
    → is_recorded (updated any_row (set_hash hash) o) ≡ true
hash_recorded hash none h = h
hash_recorded hash (some row) h =
    rw (recorded_parts row.on_chain_submitted (has_no_hash row) h).0 refl

pub reopen_recorded :
    (o : Option Row) → is_recorded o ≡ true → is_recorded (updated has_no_hash reopen o) ≡ true
reopen_recorded none h = h
reopen_recorded (some row) h =
    if_keeps (λ o. is_recorded o ≡ true) (has_no_hash row)
      (λ e. let f = (recorded_parts row.on_chain_submitted (has_no_hash row) h).1 in cc) (λ _. h)

pub true_ne_false : true ≢ false
true_ne_false h = cc

-- A claim that counts a row leaves the row closed.
pub closed_or_missing :
    (o : Option Row) → (matches is_open o ≡ false) ⊎ (is_closed (updated is_open close o) ≡ true)
closed_or_missing none = inl refl
closed_or_missing (some row) = elim (Bool-cases row.on_chain_submitted) [
  | inl e ↦ inl (rw e refl)
  | inr e ↦ inr (
      if_keeps (λ o. is_closed o ≡ true) (is_open row) (λ _. refl)
        (λ f. absurd (true_ne_false (sym (ap not e) ∙ f))))
]

pub won_le_one : (x : Slot) (r : Reading) (o : Option Bool) → is_won x r o ≤ 1
won_le_one x r none = omega arith
won_le_one x r (some false) = omega arith
won_le_one x r (some true) =
    if_keeps (λ n. n ≤ 1) (slot_eq x (slot_of r)) (λ _. omega arith) (λ _. omega arith)
