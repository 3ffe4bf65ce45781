-- ===== src/Claims/Recovery/Rules.antt =====
-- What the recovery of src/claims/claims.service.ts does to a stuck policy, by how it counts it.
use parashield_backend.Base.{
  ℕ, ◌≡◌, refl, sym, ap, ◌∙◌, inl, inr, Bool, true, false, Option, none, some, List, [], ◌∷◌, any,
  keep, Bool-cases, ltb, ◌==◌, ==_refl, if◌then◌else◌,
}
use parashield_backend.Policy.Status.{
  PolicyStatus, active, processing, claimed, status_eq, eq_processing,
}
use parashield_backend.Claims.Rows.{Policy, Claim, AuditEntry, policy_audit}
use parashield_backend.Claims.Database.{Database, update_if, hits}
use parashield_backend.Claims.Transaction.{commit}
use parashield_backend.Claims.AutoProcess.Effects.{move_to}
use parashield_backend.Claims.Recovery.{
  Stuck, Outcome, marked_claimed, needs_manual_review, reverted_to_active, skipped, Conditions,
  is_paid, is_in_flight, has_hash, fail_if_processing, guarded_write, fail_claims, audit_all,
  recovery_audits, revert, mark_claimed,
}

module _ (db : Database) where
  open db use {State, find_policy, update_policies, updated_at}

  find-fail_claims :
      (i now : ℕ) (cs : List Claim) (s : State)
      → find_policy i (fail_claims db now cs s) ≡ find_policy i s
  unfolding fail_claims
  find-fail_claims i now [] s = refl
  find-fail_claims i now (c ∷ cs) s =
      find-fail_claims i now cs (db.update_claim c.id (fail_if_processing now) s)
      ∙ db.find_policy-update_claim i c.id (fail_if_processing now) s

  find-audit_all :
      (i : ℕ) (es : List AuditEntry) (s : State)
      → find_policy i (audit_all db es s) ≡ find_policy i s
  unfolding audit_all
  find-audit_all i [] s = refl
  find-audit_all i (e ∷ es) s = find-audit_all i es (db.audit e s) ∙ db.find_policy-audit i e s

  -- A policy that was PROCESSING, and old enough, has been moved.
  abbrev pub Moved : ℕ → ℕ → PolicyStatus → State → State → Type 0
  Moved id cutoff status s t =
      (ltb (updated_at id s) cutoff ≡ true)
      × ((p : Policy) × (find_policy id s ≡ some p)
          × (p.status ≡ processing)
          × (find_policy id t ≡ some (move_to status p)))

  abbrev is_processing : Policy → Bool
  is_processing p = status_eq p.status processing

  written :
      (id : ℕ) (status : PolicyStatus) (o : Option Policy)
      → (hits is_processing o == 0) ≡ false
      → (p : Policy) × (o ≡ some p)
        × (p.status ≡ processing)
        × (update_if is_processing (move_to status) o ≡ some (move_to status p))
  written id status none h = cc
  written id status (some p) h = elim (Bool-cases (is_processing p)) [
    | inl e ↦ (p, refl, eq_processing p.status e, rw e refl)
    | inr e ↦ let v : (hits is_processing (some p) == 0) ≡ true = rw e refl in cc
  ]

  missed :
      (status : PolicyStatus) (o : Option Policy)
      → (hits is_processing o == 0) ≡ true
      → update_if is_processing (move_to status) o ≡ o
  missed status none h = refl
  missed status (some p) h = elim (Bool-cases (is_processing p)) [
    | inl e ↦ let v : (hits is_processing (some p) == 0) ≡ false = rw e refl in cc
    | inr e ↦ rw e refl
  ]

  row_after :
      (id : ℕ) (status : PolicyStatus) (s : State)
      → find_policy id (update_policies id is_processing (move_to status) s).0
        ≡ update_if is_processing (move_to status) (find_policy id s)
  row_after id status s =
      db.find_policy-update_policies id id is_processing (move_to status) s ∙ rw (==_refl id) refl

  guarded_write-Moved :
      (cutoff id : ℕ) (status : PolicyStatus) (s : State)
      → ((guarded_write db cutoff id status s).1 == 0) ≡ false
      → Moved id cutoff status s (guarded_write db cutoff id status s).0
  unfolding guarded_write
  guarded_write-Moved cutoff id status s h = elim (Bool-cases (ltb (updated_at id s) cutoff)) [
    | inr young ↦
        let v : ((guarded_write db cutoff id status s).1 == 0) ≡ true =
          rw (guarded_write, young) refl in
        cc
    | inl old ↦
        let count : (guarded_write db cutoff id status s).1
            ≡ hits is_processing (find_policy id s) =
          rw (guarded_write, old) (db.count-update_policies id is_processing (move_to status) s) in
        let (p, found, status_was, row) =
          written id status (find_policy id s) (ap (λ n. n == 0) (sym count) ∙ h) in
        (old, (p, found, status_was, rw (guarded_write, old) (row_after id status s ∙ row)))
  ]

  guarded_write-missed :
      (cutoff id : ℕ) (status : PolicyStatus) (s : State)
      → ((guarded_write db cutoff id status s).1 == 0) ≡ true
      → find_policy id (guarded_write db cutoff id status s).0 ≡ find_policy id s
  unfolding guarded_write
  guarded_write-missed cutoff id status s h = elim (Bool-cases (ltb (updated_at id s) cutoff)) [
    | inr young ↦ rw (guarded_write, young) refl
    | inl old ↦
        let count : (guarded_write db cutoff id status s).1
            ≡ hits is_processing (find_policy id s) =
          rw (guarded_write, old) (db.count-update_policies id is_processing (move_to status) s) in
        rw (guarded_write, old)
          (row_after id status s
            ∙ missed status (find_policy id s) (ap (λ n. n == 0) (sym count) ∙ h))
  ]

  -- What each count says of the row, before and after.
  abbrev pub Recovered : ℕ → Stuck → State → Outcome → State → Type 0
  Recovered cutoff stuck s marked_claimed t =
      (any is_paid stuck.claims ≡ true) × Moved stuck.id cutoff claimed s t
  Recovered cutoff stuck s reverted_to_active t =
      (any is_paid stuck.claims ≡ false)
      × (any has_hash (keep is_in_flight stuck.claims) ≡ false)
      × Moved stuck.id cutoff active s t
  Recovered cutoff stuck s needs_manual_review t =
      (any is_paid stuck.claims ≡ false)
      × (any has_hash (keep is_in_flight stuck.claims) ≡ true)
      × (t ≡ s)
  Recovered cutoff stuck s skipped t = find_policy stuck.id t ≡ find_policy stuck.id s

  Moved-same :
      (id cutoff : ℕ) (status : PolicyStatus) (s t u : State)
      → find_policy id u ≡ find_policy id t
      → Moved id cutoff status s t
      → Moved id cutoff status s u
  Moved-same id cutoff status s t u same (old, (p, found, was, row)) =
      (old, (p, found, was, same ∙ row))

  audited :
      (fails : Bool) (id : ℕ) (e : AuditEntry) (t : State)
      → find_policy id (if fails then t else db.audit e t) ≡ find_policy id t
  audited true id e t = refl
  audited false id e t = db.find_policy-audit id e t

  pub mark_claimed-Recovered :
      (cutoff : ℕ) (stuck : Stuck) (env : Conditions) (s : State)
      → any is_paid stuck.claims ≡ true
      → Recovered cutoff stuck s
          (mark_claimed db cutoff stuck.id env s).0
          (mark_claimed db cutoff stuck.id env s).1
  unfolding mark_claimed
  mark_claimed-Recovered cutoff stuck env s paid = elim (Bool-cases env.write_fails) [
    | inl e ↦ rw (mark_claimed, e) refl
    | inr e ↦ elim (Bool-cases ((guarded_write db cutoff stuck.id claimed s).1 == 0)) [
      | inl miss ↦ rw (mark_claimed, e, miss) (guarded_write-missed cutoff stuck.id claimed s miss)
      | inr hit ↦
          rw (mark_claimed, e, hit)
            (
              paid,
              Moved-same stuck.id cutoff claimed s (guarded_write db cutoff stuck.id claimed s).0
                  (if env.audit_fails
                    then (guarded_write db cutoff stuck.id claimed s).0
                    else db.audit (policy_audit stuck.id processing claimed)
                        (guarded_write db cutoff stuck.id claimed s).0)
                  (audited env.audit_fails stuck.id (policy_audit stuck.id processing claimed)
                    (guarded_write db cutoff stuck.id claimed s).0)
                  (guarded_write-Moved cutoff stuck.id claimed s hit),
            )
    ]
  ]

  -- What the transaction of the last case did, by what it returned.
  abbrev pub Reverted : ℕ → ℕ → State → Bool → State → Type 0
  Reverted id cutoff s true t = Moved id cutoff active s t
  Reverted id cutoff s false t = find_policy id t ≡ find_policy id s

  pub revert-Reverted :
      (now cutoff id : ℕ) (cs : List Claim) (s t : State) (b : Bool)
      → revert db now cutoff id cs s ≡ commit b t
      → Reverted id cutoff s b t
  unfolding revert
  revert-Reverted now cutoff id cs s t b h =
      elim (Bool-cases ((guarded_write db cutoff id active s).1 == 0)) [
        | inl miss ↦
            let u = (guarded_write db cutoff id active s).0 in
            let v : revert db now cutoff id cs s ≡ commit false u = rw (revert, miss) refl in
            let is_false : false ≡ b = cc in
            let same : u ≡ t = cc in
            rw (← is_false, ← same) (guarded_write-missed cutoff id active s miss)
        | inr hit ↦
            let w = (guarded_write db cutoff id active s).0 in
            let u = audit_all db (recovery_audits db id cs) (fail_claims db now cs w) in
            let v : revert db now cutoff id cs s ≡ commit true u = rw (revert, hit) refl in
            let is_true : true ≡ b = cc in
            let same : u ≡ t = cc in
            rw (← is_true, ← same)
              (Moved-same id cutoff active s w u
                (find-audit_all id (recovery_audits db id cs) (fail_claims db now cs w)
                  ∙ find-fail_claims id now cs w)
                (guarded_write-Moved cutoff id active s hit))
      ]
