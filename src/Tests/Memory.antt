-- ===== src/Tests/Memory.antt =====
-- A database in memory that keeps the laws of Claims.Database.
use parashield_backend.Base.{
  ℕ, ◌+◌, ◌≡◌, refl, sym, ap, ◌∙◌, inl, inr, Bool, true, false, ◌&&◌, Option, none, some, List, [],
  ◌∷◌, map, any, keep, find, Bool-cases, ◌==◌, if◌then◌else◌,
}
use parashield_backend.Claims.Rows.{Policy, Claim, OracleReading, AuditEntry}
use parashield_backend.Claims.Database.{
  Database, update_if, hits, count, change_claim, is_unsettled,
}

pub record Tables : Type 0 where
  pub policies : ℕ → Option Policy
  pub claims : List Claim
  pub readings : List OracleReading
  pub log : List AuditEntry
  pub next_id : ℕ

abbrev pub claims_in : ℕ → List Claim → List Claim
claims_in i cs = keep (λ c. i == c.policy_id) cs

abbrev pub insert : Claim → Tables → Option Tables
insert c s =
    if is_unsettled c && any is_unsettled (claims_in c.policy_id s.claims)
    then none
    else some (record s { claims = c ∷ s.claims; next_id = s.next_id + 1 })

abbrev pub Inserted : Claim → Tables → Tables → Type 0
Inserted c s t = record s { claims = c ∷ s.claims; next_id = s.next_id + 1 } ≡ t

pub insert-Inserted : (c : Claim) (s t : Tables) → insert c s ≡ some t → Inserted c s t
insert-Inserted c s t e =
    elim (Bool-cases (is_unsettled c && any is_unsettled (claims_in c.policy_id s.claims))) [
      | inl b ↦ let v : insert c s ≡ none = rw (b) refl in cc
      | inr b ↦
          let v : insert c s ≡ some (record s { claims = c ∷ s.claims; next_id = s.next_id + 1 }) =
            rw (b) refl in
          cc
    ]

pub count_insert :
    (test : Claim → Bool) (i : ℕ) (c : Claim) (cs : List Claim)
    → count test (claims_in i (c ∷ cs))
      ≡ (if i == c.policy_id then count test (c ∷ claims_in i cs) else count test (claims_in i cs))
count_insert test i c cs = elim (Bool-cases (i == c.policy_id)) [
  | inl e ↦ rw e refl
  | inr e ↦ rw e refl
]

pub count_update :
    (test : Claim → Bool) (i k : ℕ) (f : Claim → Claim) (cs : List Claim)
    → ((c : Claim) → (f c).policy_id ≡ c.policy_id)
    → claims_in i (map (change_claim k f) cs) ≡ map (change_claim k f) (claims_in i cs)
count_update test i k f [] h = refl
count_update test i k f (c ∷ cs) h =
    let same : (change_claim k f c).policy_id ≡ c.policy_id = by_case (c.id == k) in
    elim (Bool-cases (i == c.policy_id)) [
      | inl e ↦ rw (same, e) (ap (λ r. change_claim k f c ∷ r) (count_update test i k f cs h))
      | inr e ↦ rw (same, e) (count_update test i k f cs h)
    ]
  where
    by_case : (b : Bool) → (if b then f c else c).policy_id ≡ c.policy_id
    by_case true = h c
    by_case false = refl

pub first_insert :
    (c : Claim) (s : Tables)
    → any is_unsettled (claims_in c.policy_id s.claims) ≡ false
    → (t : Tables) × (insert c s ≡ some t)
first_insert c s free = elim (Bool-cases (is_unsettled c)) [
  | inl e ↦ (record s { claims = c ∷ s.claims; next_id = s.next_id + 1 }, rw (e, free) refl)
  | inr e ↦ (record s { claims = c ∷ s.claims; next_id = s.next_id + 1 }, rw e refl)
]

abbrev pub memory : Database
memory = record {
  State = Tables;
  find_policy = λ i s. s.policies i;
  claims_of = λ i s. claims_in i s.claims;
  latest_reading = λ k s. find (λ r. r.key == k) s.readings;
  audit_log = λ s. s.log;
  updated_at = λ i s. 0;
  update_policies = λ j g f s. (
    record s { policies = λ i. if i == j then update_if g f (s.policies i) else s.policies i },
    hits g (s.policies j),
  );
  fresh_id = λ s. s.next_id;
  create_claim = λ c s. insert c s;
  update_claim = λ k f s. record s { claims = map (change_claim k f) s.claims };
  audit = λ e s. record s { log = e ∷ s.log };
  find_policy-update_policies = λ i j g f s. refl;
  count-update_policies = λ j g f s. refl;
  claims_of-update_policies = λ i j g f s. refl;
  audit_log-update_policies = λ j g f s. refl;
  find_policy-create_claim = λ i c s t e. ap (λ u. u.policies i) (sym (insert-Inserted c s t e));
  count-create_claim = λ test i c s t e.
      ap (λ u. count test (claims_in i u.claims)) (sym (insert-Inserted c s t e))
      ∙ count_insert test i c s.claims;
  audit_log-create_claim = λ c s t e. ap (λ u. u.log) (sym (insert-Inserted c s t e));
  create_claim-unique = λ c s unsettled taken. rw (unsettled, taken) refl;
  create_claim-first = λ c s free unhashed there. first_insert c s free;
  find_policy-update_claim = λ i k f s. refl;
  count-update_claim = λ test i k f s h. ap (count test) (count_update test i k f s.claims h);
  audit_log-update_claim = λ k f s. refl;
  find_policy-audit = λ i e s. refl;
  claims_of-audit = λ i e s. refl;
  audit_log-audit = λ e s. refl;
}
