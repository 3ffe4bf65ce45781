-- ===== src/Policy/Amend/Cancelled.antt =====
-- A cancellation and a payout exclude one another.
use parashield_backend.Base.{
  ℕ, ◌≡◌, ◌≢◌, refl, sym, ap, ◌∙◌, inl, inr, Bool, true, false, Option, none, some, ◌==◌, ==_refl,
  Bool-cases, arith,
}
use parashield_backend.Policy.Status.{
  PolicyStatus, active, processing, cancelled, eq_active, transition,
}
use parashield_backend.Policy.Premium.{refund_stroops}
use parashield_backend.Claims.Rows.{Policy, Claim, policy_audit}
use parashield_backend.Claims.Database.{Database, hits}
use parashield_backend.Claims.Transaction.{commit}
use parashield_backend.Claims.Evolution.{Evolves, version_mono}
use parashield_backend.Claims.AutoProcess.{reserved, reserve}
use parashield_backend.Claims.AutoProcess.Effects.{move_to}
use parashield_backend.Claims.AutoProcess.Gate.{reserve_needs}
use parashield_backend.Policy.Amend.{
  conflict, cancellation, is_active, Checked, misses, refuses_transition, goes, with_refund,
  check_cancel, audit_cancelled, write_cancel, continue_cancel, cancel_policy,
}

hit_row :
    (o : Option Policy)
    → (hits is_active o == 0) ≡ false
    → (p : Policy) × (o ≡ some p) × (is_active p ≡ true)
hit_row none h = cc
hit_row (some p) h = (p, refl, ground arith)

missed : (p : Policy) → p.status ≡ processing → hits is_active (some p) ≡ 0
missed p h = rw h refl

module _ (db : Database) where
  open db use {State, find_policy}

  audit_cancelled-find :
      (fails : Bool) (id : ℕ) (s : State)
      → find_policy id (audit_cancelled db fails id s) ≡ find_policy id s
  audit_cancelled-find true id s = refl
  audit_cancelled-find false id s = db.find_policy-audit id (policy_audit id active cancelled) s

  -- What a cancellation found and made at its write.
  pub record IsCancelled (id : ℕ) (s t : State) : Type 0 where
    pub row : Policy
    pub found : find_policy id s ≡ some row
    pub was_active : row.status ≡ active
    pub made : find_policy id t ≡ some (move_to cancelled row)

  write_cancel-IsCancelled :
      (id refund amount : ℕ) (fails : Bool) (s t : State)
      → write_cancel db id refund fails s ≡ (cancellation amount, t)
      → (amount ≡ refund) × IsCancelled id s t
  unfolding write_cancel
  write_cancel-IsCancelled id refund amount fails s t h =
      let (u, count) = db.update_policies id is_active (move_to cancelled) s in
      elim (Bool-cases (count == 0)) [
        | inl e ↦
            let v : write_cancel db id refund fails s ≡ (conflict, u) = rw (write_cancel, e) refl in
            absurd cc
        | inr e ↦
            let v : write_cancel db id refund fails s
                ≡ (cancellation refund, audit_cancelled db fails id u) =
              rw (write_cancel, e) refl in
            let hit : (hits is_active (find_policy id s) == 0) ≡ false =
              rw (← db.count-update_policies id is_active (move_to cancelled) s) e in
            let (p, found, fits) = hit_row (find_policy id s) hit in
            let state : audit_cancelled db fails id u ≡ t = cc in
            (
              cc,
              record {
                row = p;
                found = found;
                was_active = eq_active p.status fits;
                made =
                    ap (find_policy id) (sym state)
                    ∙ audit_cancelled-find fails id u
                    ∙ db.find_policy-update_policies id id is_active (move_to cancelled) s
                    ∙ rw (==_refl id, found, fits) refl;
              },
            )
      ]

  with_refund-goes :
      (o : Option PolicyStatus) (refund amount : ℕ)
      → with_refund db o refund ≡ goes amount
      → (o ≢ none) × (amount ≡ refund)
  with_refund-goes none refund amount h = absurd cc
  with_refund-goes (some next) refund amount h = (λ e. cc, cc)

  check_cancel-goes :
      (now premium start_time amount : ℕ) (o : Option Policy)
      → check_cancel db now premium start_time o ≡ goes amount
      → (p : Policy) × (o ≡ some p)
        × (transition p.status cancelled ≢ none)
        × (amount ≡ refund_stroops premium start_time p.end_time now)
  check_cancel-goes now premium start_time amount none h = absurd cc
  check_cancel-goes now premium start_time amount (some p) h =
      let (can, same) = with_refund-goes (transition p.status cancelled) _ amount h in
      (p, refl, can, same)

  continue_cancel-IsCancelled :
      (id amount : ℕ) (fails : Bool) (foreign : State → State) (s t : State) (o : Checked)
      → continue_cancel db id fails foreign s o ≡ (cancellation amount, t)
      → (o ≡ goes amount) × IsCancelled id (foreign s) t
  unfolding continue_cancel
  continue_cancel-IsCancelled id amount fails foreign s t misses h = absurd cc
  continue_cancel-IsCancelled id amount fails foreign s t refuses_transition h = absurd cc
  continue_cancel-IsCancelled id amount fails foreign s t (goes refund) h =
      let (same, made) = write_cancel-IsCancelled id refund amount fails (foreign s) t h in
      (ap goes (sym same), made)

  -- A cancellation succeeds only if the row that it read may move to CANCELLED and the row at its write,
  -- after whatever others committed in between, is ACTIVE. That row becomes CANCELLED, one version on,
  -- and the refund is that of the row that was read.
  pub cancel_policy-IsCancelled :
      (id now premium start_time amount : ℕ) (fails : Bool) (foreign : State → State) (s t : State)
      → cancel_policy db id now premium start_time fails foreign s ≡ (cancellation amount, t)
      → ((p : Policy) × (find_policy id s ≡ some p)
          × (transition p.status cancelled ≢ none)
          × (amount ≡ refund_stroops premium start_time p.end_time now))
        × IsCancelled id (foreign s) t
  unfolding cancel_policy
  cancel_policy-IsCancelled id now premium start_time amount fails foreign s t h =
      let (e, made) = continue_cancel-IsCancelled id amount fails foreign s t _ h in
      (check_cancel-goes now premium start_time amount (find_policy id s) e, made)

  -- A snapshot that was read before the write of a cancellation, with whatever policy writes that
  -- increment the version, claim writes, claim inserts and audit rows in between, reserves nothing
  -- after it, whatever writes of these kinds follow.
  pub cancelled_not_reserved :
      (id now premium start_time amount : ℕ) (fails : Bool) (foreign : State → State)
      (r s t u v : State) (snapshot : Policy) (c : Claim)
      → find_policy id r ≡ some snapshot
      → Evolves db r (foreign s)
      → cancel_policy db id now premium start_time fails foreign s ≡ (cancellation amount, t)
      → Evolves db t u
      → ¬ (reserve db id snapshot u ≡ commit (reserved c) v)
  cancelled_not_reserved id now premium start_time amount fails foreign r s t u v snapshot c read
        before h after again =
      let made =
        (cancel_policy-IsCancelled id now premium start_time amount fails foreign s t h).1 in
      let (q, at_write, older) = version_mono db id snapshot before read in
      let row : q ≡ made.row = cc (at_write, made.found) in
      let (p, at_u, newer) = version_mono db id (move_to cancelled made.row) after made.made in
      let (w, found, _, version) = (reserve_needs db id snapshot u v c again).1 in
      let same : p ≡ w = cc (at_u, found) in
      omega (arith, older, newer, version, ap Policy.version row, ap Policy.version same)

  -- After a reservation a cancellation that had passed its checks ends in a conflict.
  pub reserved_not_cancelled :
      (id refund : ℕ) (fails : Bool) (snapshot : Policy) (s t : State) (c : Claim)
      → reserve db id snapshot s ≡ commit (reserved c) t
      → (write_cancel db id refund fails t).0 ≡ conflict
  unfolding write_cancel
  reserved_not_cancelled id refund fails snapshot s t c h =
      let (p, found, status, _) = (reserve_needs db id snapshot s t c h).2 in
      let misses : (db.update_policies id is_active (move_to cancelled) t).1 ≡ 0 =
        db.count-update_policies id is_active (move_to cancelled) t
        ∙ (ap (hits is_active) found ∙ missed p status) in
      rw misses refl
