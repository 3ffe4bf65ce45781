-- ===== src/Claims/Database.antt =====
-- What the claims flow relies on of Prisma and PostgreSQL: a parameter of every definition that
-- touches the database. `find_policy` and `claims_of` are what queries see of a state.
use parashield_backend.Base.{
  ℕ, suc, ◌≡◌, ◌≢◌, Bool, true, false, ◌||◌, Option, none, some, List, [], ◌∷◌, map, any, ◌==◌,
  if◌then◌else◌,
}
use parashield_backend.Claims.Rows.{
  Policy, Claim, claim_status_eq, pending, processing, OracleReading, AuditEntry,
}

-- The row after `updateMany` with a condition and new data, and the count that it returns.
abbrev pub update_if : (Policy → Bool) → (Policy → Policy) → Option Policy → Option Policy
update_if guard change none = none
update_if guard change (some p) = some (if guard p then change p else p)

abbrev pub hits : (Policy → Bool) → Option Policy → ℕ
hits guard none = 0
hits guard (some p) = if guard p then 1 else 0

abbrev pub count : (Claim → Bool) → List Claim → ℕ
count test [] = 0
count test (c ∷ cs) = let rest = count test cs in if test c then suc rest else rest

abbrev pub change_claim : ℕ → (Claim → Claim) → Claim → Claim
change_claim id change c = if c.id == id then change c else c

-- `status IN ('PENDING', 'PROCESSING')`: the partial unique index on Claim.policyId.
abbrev pub is_unsettled : Claim → Bool
is_unsettled c = claim_status_eq c.status pending || claim_status_eq c.status processing

pub record Database : Type 1 where
  pub State : Type 0
  -- policy.findUnique({ where: { id } })
  pub find_policy : ℕ → State → Option Policy
  -- claim.findMany({ where: { policyId } }), in an order that nothing is assumed of
  pub claims_of : ℕ → State → List Claim
  -- oracleReading.findFirst({ where: { key }, orderBy: { submittedAt: 'desc' } })
  pub latest_reading : ℕ → State → Option OracleReading
  pub audit_log : State → List AuditEntry
  -- the `updatedAt` of a policy, which Prisma sets in every update
  pub updated_at : ℕ → State → ℕ
  -- policy.updateMany({ where: { id, ... }, data })
  pub update_policies : ℕ → (Policy → Bool) → (Policy → Policy) → State → State × ℕ
  -- the id that `@default(uuid())` gives the next claim
  pub fresh_id : State → ℕ
  -- claim.create({ data }); `none` is the unique violation P2002
  pub create_claim : Claim → State → Option State
  -- claim.update({ where: { id }, data })
  pub update_claim : ℕ → (Claim → Claim) → State → State
  -- auditLog.create({ data })
  pub audit : AuditEntry → State → State
  -- An update of one policy touches its row alone, by the condition, and counts it.
  pub find_policy-update_policies :
      (i j : ℕ) (g : Policy → Bool) (f : Policy → Policy) (s : State)
      → find_policy i (update_policies j g f s).0
        ≡ (if i == j then update_if g f (find_policy i s) else find_policy i s)
  pub count-update_policies :
      (j : ℕ) (g : Policy → Bool) (f : Policy → Policy) (s : State)
      → (update_policies j g f s).1 ≡ hits g (find_policy j s)
  pub claims_of-update_policies :
      (i j : ℕ) (g : Policy → Bool) (f : Policy → Policy) (s : State)
      → claims_of i (update_policies j g f s).0 ≡ claims_of i s
  pub audit_log-update_policies :
      (j : ℕ) (g : Policy → Bool) (f : Policy → Policy) (s : State)
      → audit_log (update_policies j g f s).0 ≡ audit_log s
  -- A created claim is one row more, of its policy.
  pub find_policy-create_claim :
      (i : ℕ) (c : Claim) (s t : State)
      → create_claim c s ≡ some t
      → find_policy i t ≡ find_policy i s
  pub count-create_claim :
      (test : Claim → Bool) (i : ℕ) (c : Claim) (s t : State)
      → create_claim c s ≡ some t
      → count test (claims_of i t)
        ≡ (if i == c.policy_id then count test (c ∷ claims_of i s) else count test (claims_of i s))
  pub audit_log-create_claim :
      (c : Claim) (s t : State) → create_claim c s ≡ some t → audit_log t ≡ audit_log s
  -- The unique index: a second unsettled claim of a policy is refused. A first one, with no hash
  -- and for a policy that exists, violates no constraint.
  pub create_claim-unique :
      (c : Claim) (s : State)
      → is_unsettled c ≡ true
      → any is_unsettled (claims_of c.policy_id s) ≡ true
      → create_claim c s ≡ none
  pub create_claim-first :
      (c : Claim) (s : State)
      → any is_unsettled (claims_of c.policy_id s) ≡ false
      → c.tx_hash ≡ none
      → find_policy c.policy_id s ≢ none
      → (t : State) × (create_claim c s ≡ some t)
  -- A claim's update leaves policies alone and changes the rows with its id.
  pub find_policy-update_claim :
      (i k : ℕ) (f : Claim → Claim) (s : State)
      → find_policy i (update_claim k f s) ≡ find_policy i s
  pub count-update_claim :
      (test : Claim → Bool) (i k : ℕ) (f : Claim → Claim) (s : State)
      → ((c : Claim) → (f c).policy_id ≡ c.policy_id)
      → count test (claims_of i (update_claim k f s))
        ≡ count test (map (change_claim k f) (claims_of i s))
  pub audit_log-update_claim :
      (k : ℕ) (f : Claim → Claim) (s : State) → audit_log (update_claim k f s) ≡ audit_log s
  -- An audit row changes nothing but the log.
  pub find_policy-audit :
      (i : ℕ) (e : AuditEntry) (s : State) → find_policy i (audit e s) ≡ find_policy i s
  pub claims_of-audit :
      (i : ℕ) (e : AuditEntry) (s : State) → claims_of i (audit e s) ≡ claims_of i s
  pub audit_log-audit : (e : AuditEntry) (s : State) → audit_log (audit e s) ≡ e ∷ audit_log s
