-- ===== src/Claims/Evolution.antt =====
-- What other processes can commit: any sequence of the writes that the claims flow and its worker
-- make. Every policy write increments the version, so versions never fall.
use parashield_backend.Base.{
  ℕ, ◌≤◌, ◌≡◌, refl, Bool, true, false, arith, Option, some, ◌==◌, if◌then◌else◌,
}
use parashield_backend.Policy.Status.{PolicyStatus}
use parashield_backend.Claims.Rows.{Policy, Claim, AuditEntry}
use parashield_backend.Claims.Database.{Database, update_if}
use parashield_backend.Claims.AutoProcess.Effects.{move_to}

pub data Evolves (db : Database) (s : db.State) : db.State → Type 0 where
  here : Evolves db s s
  policy_write :
      {t : db.State} (j : ℕ) (guard : Policy → Bool) (status : PolicyStatus)
      → Evolves db s t
      → Evolves db s (db.update_policies j guard (move_to status) t).0
  claim_write :
      {t : db.State} (k : ℕ) (change : Claim → Claim)
      → Evolves db s t
      → Evolves db s (db.update_claim k change t)
  claim_insert :
      {t u : db.State} (c : Claim) → db.create_claim c t ≡ some u → Evolves db s t → Evolves db s u
  audit_insert : {t : db.State} (e : AuditEntry) → Evolves db s t → Evolves db s (db.audit e t)

-- A policy that is there stays, with a version that is no lower.
abbrev pub Newer : Policy → Option Policy → Type 0
Newer p o = (q : Policy) × (o ≡ some q) × (p.version ≤ q.version)

Newer-update :
    (guard : Policy → Bool) (status : PolicyStatus) (hit : Bool) (p : Policy) (o : Option Policy)
    → Newer p o
    → Newer p (if hit then update_if guard (move_to status) o else o)
Newer-update guard status false p o n = n
Newer-update guard status true p o (q, e, le) = rw e (by_guard (guard q))
  where
    by_guard : (b : Bool) → Newer p (some (if b then move_to status q else q))
    by_guard true = (move_to status q, refl, omega arith)
    by_guard false = (q, refl, le)

module _ (db : Database) where
  open db use {State, find_policy}

  pub version_mono :
      {s t : State} (i : ℕ) (p : Policy)
      → Evolves db s t
      → find_policy i s ≡ some p
      → Newer p (find_policy i t)
  version_mono i p here e = (p, e, omega arith)
  version_mono i p (policy_write {t = t} j guard status r) e =
      rw (db.find_policy-update_policies i j guard (move_to status) t)
        (Newer-update guard status (i == j) p (find_policy i t) (version_mono i p r e))
  version_mono i p (claim_write {t = t} k change r) e =
      rw (db.find_policy-update_claim i k change t) (version_mono i p r e)
  version_mono i p (claim_insert {t = t} {u = u} c made r) e =
      rw (db.find_policy-create_claim i c t u made) (version_mono i p r e)
  version_mono i p (audit_insert {t = t} entry r) e =
      rw (db.find_policy-audit i entry t) (version_mono i p r e)
