-- ===== src/Claims/AutoProcess/Gate.antt =====
-- The reservation: what it needs, what it leaves, and that a policy snapshot reserves once.
use parashield_backend.Base.{
  ℕ, ◌+◌, ◌≡◌, refl, sym, ap, ◌∙◌, inl, inr, Bool, true, false, List, ◌∷◌, arith, Option, none,
  some, find, Bool-cases, Option-cases, and_parts, ◌==◌, ==_iff, ==_refl,
}
use parashield_backend.Policy.Status.{active, processing, status_eq, eq_active}
use parashield_backend.Claims.Rows
use parashield_backend.Claims.Rows.{Policy, Claim}
use parashield_backend.Claims.Database.{Database, hits, count}
use parashield_backend.Claims.Transaction.{commit, rollback}
use parashield_backend.Claims.Evolution.{Evolves, version_mono}
use parashield_backend.Claims.AutoProcess.{
  duplicate, lost_race, reserved, unique_violation, is_processed, new_claim, reserve, insert_claim,
}
use parashield_backend.Claims.AutoProcess.Effects.{move_to, status_and_version}

fits_status : (v : ℕ) (p : Policy) → status_and_version active v p ≡ true → p.status ≡ active
fits_status v p h = eq_active p.status (and_parts (status_eq p.status active) (p.version == v) h).0

fits_version : (v : ℕ) (p : Policy) → status_and_version active v p ≡ true → p.version ≡ v
fits_version v p h =
    (==_iff p.version v).0 (and_parts (status_eq p.status active) (p.version == v) h).1

count_cons :
    (test : Claim → Bool) (c : Claim) (xs ys : List Claim)
    → xs ≡ ys
    → count test (c ∷ xs) ≡ count test (c ∷ ys)
count_cons test c xs ys e = ap (λ l. count test (c ∷ l)) e

module _ (db : Database) where
  open db use {State, find_policy, claims_of, update_policies, fresh_id, create_claim}

  -- The state behind the gate.
  abbrev pub gated : ℕ → Policy → State → State
  gated id policy s =
      (update_policies id (status_and_version active policy.version) (move_to processing) s).0

  -- What a reservation found, and made.
  pub record Reserved (id : ℕ) (policy : Policy) (s : State) (c : Claim) (t : State) : Type 0 where
    pub unprocessed : find is_processed (claims_of id s) ≡ none
    pub row : Policy
    pub found : find_policy id s ≡ some row
    pub fits : status_and_version active policy.version row ≡ true
    pub claim : c ≡ new_claim (fresh_id (gated id policy s)) id policy
    pub inserted : create_claim c (gated id policy s) ≡ some t

  insert_inversion :
      (id : ℕ) (policy : Policy) (s t : State) (c : Claim)
      → insert_claim db id policy s ≡ commit (reserved c) t
      → (c ≡ new_claim (fresh_id s) id policy) × (create_claim c s ≡ some t)
  unfolding insert_claim
  insert_inversion id policy s t c h =
      elim (Option-cases (create_claim (new_claim (fresh_id s) id policy) s)) [
        | inl e ↦
            let v : insert_claim db id policy s ≡ rollback unique_violation =
              rw (e, insert_claim) refl in
            cc
        | inr (u, e) ↦
            let v : insert_claim db id policy s
                ≡ commit (reserved (new_claim (fresh_id s) id policy)) u =
              rw (e, insert_claim) refl in
            let same : c ≡ new_claim (fresh_id s) id policy = cc in
            let state : u ≡ t = cc in (same, rw same (rw (← state) e))
      ]

  hit_row :
      (g : Policy → Bool) (o : Option Policy)
      → (hits g o == 0) ≡ false
      → (p : Policy) × (o ≡ some p) × (g p ≡ true)
  hit_row g none h = cc
  hit_row g (some p) h = (p, refl, ground arith)

  pub reserve_inversion :
      (id : ℕ) (policy : Policy) (s t : State) (c : Claim)
      → reserve db id policy s ≡ commit (reserved c) t
      → Reserved id policy s c t
  unfolding reserve
  reserve_inversion id policy s t c h = elim (Option-cases (find is_processed (claims_of id s))) [
    | inr (old, e) ↦
        let v : reserve db id policy s ≡ commit (duplicate old) s = rw (e, reserve) refl in cc
    | inl e ↦ elim (Bool-cases (updated == 0)) [
      | inl missed ↦
          let v : reserve db id policy s ≡ commit lost_race (gated id policy s) =
            rw (e, reserve, missed) refl in
          cc
      | inr hit ↦
          let v : reserve db id policy s ≡ insert_claim db id policy (gated id policy s) =
            rw (e, reserve, hit) refl in
          let (made, inserted) = insert_inversion id policy (gated id policy s) t c (sym v ∙ h) in
          let (p, found, fits) =
            hit_row (status_and_version active policy.version) (find_policy id s) (
              rw
                (← db.count-update_policies id (status_and_version active policy.version)
                  (move_to processing) s)
                hit) in
          record {
            unprocessed = e;
            row = p;
            found = found;
            fits = fits;
            claim = made;
            inserted = inserted;
          }
    ]
  ]
    where
      updated : ℕ
      updated =
          (update_policies id (status_and_version active policy.version) (move_to processing) s).1

  -- A reservation leaves the policy in PROCESSING, one version on.
  Reserved-policy :
      (id : ℕ) (policy : Policy) (s t : State) (c : Claim)
      → Reserved id policy s c t
      → (p : Policy) × (find_policy id t ≡ some p)
        × (p.status ≡ processing)
        × (p.version ≡ policy.version + 1)
  Reserved-policy id policy s t c r = (
    move_to processing r.row,
    db.find_policy-create_claim id c (gated id policy s) t r.inserted
        ∙ db.find_policy-update_policies id id (status_and_version active policy.version)
            (move_to processing) s
        ∙ rw (==_refl id, r.found, r.fits) refl,
    refl,
    omega (arith, fits_version policy.version r.row r.fits),
  )

  Reserved-claims :
      (id : ℕ) (policy : Policy) (s t : State) (c : Claim)
      → Reserved id policy s c t
      → (test : Claim → Bool) → count test (claims_of id t) ≡ count test (c ∷ claims_of id s)
  Reserved-claims id policy s t c r test =
      db.count-create_claim test id c (gated id policy s) t r.inserted
      ∙ rw (r.claim, ==_refl id)
          (count_cons test (new_claim (fresh_id (gated id policy s)) id policy)
            (claims_of id (gated id policy s)) (claims_of id s)
            (db.claims_of-update_policies id id (status_and_version active policy.version)
              (move_to processing) s))

  -- A reservation is made only of a policy that is ACTIVE at the version of the snapshot and has no
  -- claim that is PROCESSING, PAID or REJECTED. It leaves the policy in PROCESSING, one version on,
  -- and adds one claim of that status and the policy's coverage.
  pub reserve_needs :
      (id : ℕ) (policy : Policy) (s t : State) (c : Claim)
      → reserve db id policy s ≡ commit (reserved c) t
      → (find is_processed (claims_of id s) ≡ none)
        × ((p : Policy) × (find_policy id s ≡ some p)
            × (p.status ≡ active)
            × (p.version ≡ policy.version))
        × ((p : Policy) × (find_policy id t ≡ some p)
            × (p.status ≡ processing)
            × (p.version ≡ policy.version + 1))
        × (c.status ≡ Rows.processing)
        × (c.coverage_amount ≡ policy.coverage_xlm)
        × ((test : Claim → Bool) → count test (claims_of id t) ≡ count test (c ∷ claims_of id s))
  reserve_needs id policy s t c h =
      let r = reserve_inversion id policy s t c h in
      (
        r.unprocessed,
        (
          r.row,
          r.found,
          fits_status policy.version r.row r.fits,
          fits_version policy.version r.row r.fits,
        ),
        Reserved-policy id policy s t c r,
        rw r.claim refl,
        rw r.claim refl,
        Reserved-claims id policy s t c r,
      )

  -- A snapshot reserves once: after a reservation, and any sequence of policy writes that increment the
  -- version, claim writes, claim inserts and audit rows, a call that still holds a snapshot of the same
  -- version makes no reservation.
  pub reserve_exclusive :
      (id : ℕ) (policy stale : Policy) (s t u v : State) (c d : Claim)
      → stale.version ≡ policy.version
      → reserve db id policy s ≡ commit (reserved c) t
      → Evolves db t u
      → ¬ (reserve db id stale u ≡ commit (reserved d) v)
  reserve_exclusive id policy stale s t u v c d same h run again =
      let first = reserve_inversion id policy s t c h in
      let second = reserve_inversion id stale u v d again in
      let (p, at_t, status, version) = Reserved-policy id policy s t c first in
      let (q, at_u, newer) = version_mono db id p run at_t in
      let row : q ≡ second.row = cc (second.found, at_u) in
      omega (
        arith,
        fits_version stale.version second.row second.fits,
        version,
        newer,
        same,
        ap Policy.version row,
      )
