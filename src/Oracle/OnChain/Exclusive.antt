-- ===== src/Oracle/OnChain/Exclusive.antt =====
-- Who may submit a slot.
use parashield_backend.Base.{
  ◌≤◌, ◌≡◌, refl, ap, inl, inr, ◌⊎◌, sym, ◌∙◌, Bool, true, false, Option, some, List, [], ◌∷◌, ◌==◌,
  if◌then◌else◌, if_keeps, any, ◌&&◌, and_parts, or_parts, Bool-cases, Option-cases, arith,
}
use parashield_backend.Oracle.Reading.{Reading}
use parashield_backend.Oracle.Table.{
  Slot, Row, slot_eq, slot_of, slot_eq-eq, Write, Table, succeeded, row_after, matches, updated,
}
use parashield_backend.Oracle.OnChain.{
  is_open, close, any_row, set_hash, has_no_hash, reopen, claim_for_on_chain_submission,
  record_on_chain_submission, release_on_chain_claim, Call, write, claim, record_hash, release,
  is_won, releases, make, wins, all_wins,
}
use parashield_backend.Oracle.OnChain.Marks.{
  is_closed, is_recorded, written_closed, close_closed, hash_closed, closed_no_match,
  recorded_closed, written_recorded, close_recorded, hash_recorded, reopen_recorded, true_ne_false,
  closed_or_missing, won_le_one,
}

module _ (table : Table) where
  -- What holds of a slot's row and of the row that a change makes of it holds after `updateMany`.
  update_many_keeps :
      (P : Option Row → Bool) (x y : Slot) (test : Row → Bool) (change : Row → Row)
      (s : table.State)
      → P (table.row y s) ≡ true
      → P (updated test change (table.row y s)) ≡ true
      → P (table.row y (table.update_many x test change s).1) ≡ true
  update_many_keeps P x y test change s h k =
      ap P (table.row-update_many x test change s y)
      ∙ if_keeps (λ o. P o ≡ true) (succeeded (table.update_many x test change s).0 && slot_eq y x)
          (λ _. k) (λ _. h)

  upsert_keeps :
      (P : Option Row → Bool) (w : Write) (y : Slot) (s : table.State)
      → P (table.row y s) ≡ true
      → P (some (row_after w (table.row y s))) ≡ true
      → P (table.row y (table.upsert w s).1) ≡ true
  upsert_keeps P w y s h k =
      ap P (table.row-upsert w s y)
      ∙ if_keeps (λ o. P o ≡ true) (table.upsert w s).0
          (λ _. if_keeps (λ o. P o ≡ true) (slot_eq y (slot_of w.reading)) (λ _. k) (λ _. h))
          (λ _. h)

  -- The rows that a claim counts.
  claim_cases :
      (x : Slot) (r : Reading) (s : table.State)
      → (is_won x r (claim_for_on_chain_submission table r s).0 ≡ 0)
        ⊎ ((matches is_open (table.row x s) ≡ true)
            × ((succeeded (table.update_many (slot_of r) is_open close s).0
                  && slot_eq x (slot_of r))
                ≡ true))
  unfolding claim_for_on_chain_submission
  claim_cases x r s = elim (Option-cases (table.update_many (slot_of r) is_open close s).0) [
    | inl e ↦ inl (rw e refl)
    | inr (n, e) ↦ elim (Bool-cases (slot_eq x (slot_of r))) [
      | inr other ↦
          inl (
            rw e
              (if_keeps (λ b. is_won x r (some b) ≡ 0) (n == 0) (λ _. refl) (λ _. rw other refl)))
      | inl same ↦ elim (Bool-cases (matches is_open (table.row x s))) [
        | inl m ↦ inr (m, rw (e, same) refl)
        | inr m ↦
            let q : x ≡ slot_of r = slot_eq-eq x (slot_of r) same in
            let none_open : n ≡ 0 =
              table.count-update_many (slot_of r) is_open close s n e
              ∙ ap (λ b. if b then 1 else 0)
                  (ap (λ y. matches is_open (table.row y s)) (sym q) ∙ m) in
            inl (rw (e, none_open) refl)
      ]
    ]
  ]

  -- A closed slot is not won.
  wins_closed :
      (x : Slot) (c : Call) (s : table.State)
      → is_closed (table.row x s) ≡ true
      → wins table x c s ≡ 0
  unfolding wins
  wins_closed x (write w) s h = refl
  wins_closed x (claim r) s h = elim (claim_cases x r s) [
    | inl e ↦ e
    | inr (m, _) ↦ let f = closed_no_match (table.row x s) h in cc
  ]
  wins_closed x (record_hash r hash) s h = refl
  wins_closed x (release r) s h = refl

  make_closed :
      (x : Slot) (c : Call) (s : table.State)
      → releases x c ≡ false
      → is_closed (table.row x s) ≡ true
      → is_closed (table.row x (make table c s)) ≡ true
  unfolding make claim_for_on_chain_submission record_on_chain_submission release_on_chain_claim
  make_closed x (write w) s n h =
      upsert_keeps is_closed w x s h (written_closed w (table.row x s) h)
  make_closed x (claim r) s n h =
      update_many_keeps is_closed (slot_of r) x is_open close s h (close_closed (table.row x s) h)
  make_closed x (record_hash r hash) s n h =
      update_many_keeps is_closed (slot_of r) x any_row (set_hash hash) s h
        (hash_closed hash (table.row x s) h)
  make_closed x (release r) s n h =
      ap is_closed (table.row-update_many (slot_of r) has_no_hash reopen s x)
      ∙ if_keeps (λ o. is_closed o ≡ true)
          (succeeded (table.update_many (slot_of r) has_no_hash reopen s).0
            && slot_eq x (slot_of r))
          (λ both.
            let same =
              (and_parts (succeeded (table.update_many (slot_of r) has_no_hash reopen s).0)
                (slot_eq x (slot_of r)) both).1 in
            cc)
          (λ _. h)

  all_wins_closed :
      (x : Slot) (calls : List Call) (s : table.State)
      → any (releases x) calls ≡ false
      → is_closed (table.row x s) ≡ true
      → all_wins table x calls s ≡ 0
  unfolding all_wins
  all_wins_closed x [] s n h = refl
  all_wins_closed x (c ∷ calls) s n h =
      let (n', ns) = or_parts (releases x c) (any (releases x) calls) n in
      omega (
        arith,
        wins_closed x c s h,
        all_wins_closed x calls (make table c s) ns (make_closed x c s n' h),
      )

  -- A call that wins a slot closes it.
  won_closes :
      (x : Slot) (c : Call) (s : table.State)
      → (wins table x c s ≡ 0)
        ⊎ ((wins table x c s ≤ 1) × (is_closed (table.row x (make table c s)) ≡ true))
  unfolding wins make claim_for_on_chain_submission
  won_closes x (write w) s = inl refl
  won_closes x (claim r) s = elim (claim_cases x r s) [
    | inl e ↦ inl e
    | inr (m, both) ↦ elim (closed_or_missing (table.row x s)) [
      | inl f ↦ absurd (true_ne_false (sym m ∙ f))
      | inr closed ↦ inr (
        won_le_one x r (claim_for_on_chain_submission table r s).0,
        ap is_closed (table.row-update_many (slot_of r) is_open close s x) ∙ (rw both closed),
      )
    ]
  ]
  won_closes x (record_hash r hash) s = inl refl
  won_closes x (release r) s = inl refl

  -- Among any calls of any replicas, in any order and none of them a release of the slot, at most one
  -- claim of the slot is granted.
  pub claims_once :
      (x : Slot) (calls : List Call) (s : table.State)
      → any (releases x) calls ≡ false
      → all_wins table x calls s ≤ 1
  unfolding all_wins
  claims_once x [] s n = omega arith
  claims_once x (c ∷ calls) s n =
      let (n', ns) = or_parts (releases x c) (any (releases x) calls) n in
      let ih = claims_once x calls (make table c s) ns in
      elim (won_closes x c s) [
        | inl e ↦ omega (arith, e, ih)
        | inr (le, closed) ↦ omega (arith, le, all_wins_closed x calls (make table c s) ns closed)
      ]

  make_recorded :
      (x : Slot) (c : Call) (s : table.State)
      → is_recorded (table.row x s) ≡ true
      → is_recorded (table.row x (make table c s)) ≡ true
  unfolding make claim_for_on_chain_submission record_on_chain_submission release_on_chain_claim
  make_recorded x (write w) s h =
      upsert_keeps is_recorded w x s h (written_recorded w (table.row x s) h)
  make_recorded x (claim r) s h =
      update_many_keeps is_recorded (slot_of r) x is_open close s h
        (close_recorded (table.row x s) h)
  make_recorded x (record_hash r hash) s h =
      update_many_keeps is_recorded (slot_of r) x any_row (set_hash hash) s h
        (hash_recorded hash (table.row x s) h)
  make_recorded x (release r) s h =
      update_many_keeps is_recorded (slot_of r) x has_no_hash reopen s h
        (reopen_recorded (table.row x s) h)

  -- Once a slot's row is marked as submitted and carries its transaction's hash, no claim of the slot is
  -- granted again, whatever upserts, claims, records and releases come.
  pub recorded_is_final :
      (x : Slot) (calls : List Call) (s : table.State)
      → is_recorded (table.row x s) ≡ true
      → all_wins table x calls s ≡ 0
  unfolding all_wins
  recorded_is_final x [] s h = refl
  recorded_is_final x (c ∷ calls) s h = omega (
    arith,
    wins_closed x c s (recorded_closed (table.row x s) h),
    recorded_is_final x calls (make table c s) (make_recorded x c s h),
  )
