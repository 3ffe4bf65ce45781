-- ===== src/Policy/Amend.antt =====
-- src/policy/policy.service.ts: `cancelPolicy` and `updatePolicy`, over the database of the claims flow.
-- The premium and the start of the row that was read, which that flow does not use, are arguments, and
-- so is what `validateOracleKey` answers.
pub mod Cancelled
pub mod Unversioned
use parashield_backend.Base.{
  ℕ, ◌*◌, ◌+◌, Bool, true, false, not, ◌&&◌, Option, none, some, leb, ◌==◌, if◌then◌else◌,
}
use parashield_backend.Policy.Status.{PolicyStatus, active, cancelled, status_eq, transition}
use parashield_backend.Policy.Premium.{refund_stroops}
use parashield_backend.Claims.Rows.{Policy, AuditEntry, policy_audit}
use parashield_backend.Claims.Database.{Database}
use parashield_backend.Claims.AutoProcess.Effects.{move_to}

-- How a cancellation ends; a refund is in stroops.
pub data Cancellation : Type 0 where
  not_found : Cancellation
  bad_transition : Cancellation
  conflict : Cancellation
  cancellation : ℕ → Cancellation

-- How its checks of the row that was read end: with a refund, if it goes on.
pub data Checked : Type 0 where
  misses : Checked
  refuses_transition : Checked
  goes : ℕ → Checked

-- `where: { status: ACTIVE }`
abbrev pub is_active : Policy → Bool
is_active p = status_eq p.status active

-- UpdatePolicyDto: the times in seconds, and the key.
pub record UpdatePolicyDto : Type 0 where
  pub start_time : Option ℕ
  pub end_time : Option ℕ
  pub oracle_key : Option ℕ

pub data Update : Type 0 where
  policy_not_found : Update
  bad_times : Update
  unchanged : Update
  key_refused : Update
  -- with the status that the audit row names
  updated : PolicyStatus → Update

-- `dto.x === undefined ? existing.x : new Date(dto.x * 1000)`, and `dto.oracleKey ?? existing.oracleKey`
abbrev pub time_or : Option ℕ → ℕ → ℕ
time_or none existing_ms = existing_ms
time_or (some seconds) existing_ms = seconds * 1000

abbrev pub key_or : Option ℕ → ℕ → ℕ
key_or none existing = existing
key_or (some key) existing = key

-- The `data` of the update, for the columns of `Policy`.
unfoldable pub amended : UpdatePolicyDto → Policy → Policy
amended dto p = record p {
  oracle_key = key_or dto.oracle_key p.oracle_key;
  end_time = time_or dto.end_time p.end_time;
}

module _ (db : Database) where
  open db use {State, find_policy, update_policies, audit}

  abbrev pub with_refund : Option PolicyStatus → ℕ → Checked
  with_refund none refund = refuses_transition
  with_refund (some next) refund = goes refund

  -- `cancelPolicy` up to its write
  abbrev pub check_cancel : ℕ → ℕ → ℕ → Option Policy → Checked
  check_cancel now premium start_time none = misses
  check_cancel now premium start_time (some existing) =
      with_refund (transition existing.status cancelled)
        (refund_stroops premium start_time existing.end_time now)

  -- The best-effort audit row
  abbrev pub audit_cancelled : Bool → ℕ → State → State
  audit_cancelled fails id s = if fails then s else audit (policy_audit id active cancelled) s

  -- From the write on
  unfoldable pub write_cancel : ℕ → ℕ → Bool → State → Cancellation × State
  write_cancel id refund audit_fails s =
      let (t, count) = update_policies id is_active (move_to cancelled) s in
      if count == 0 then (conflict, t) else (cancellation refund, audit_cancelled audit_fails id t)

  unfoldable pub continue_cancel :
      ℕ → Bool → (State → State) → State → Checked → Cancellation × State
  unfolding write_cancel
  continue_cancel id audit_fails foreign s misses = (not_found, s)
  continue_cancel id audit_fails foreign s refuses_transition = (bad_transition, s)
  continue_cancel id audit_fails foreign s (goes refund) =
      write_cancel id refund audit_fails (foreign s)

  -- `cancelPolicy`; `foreign` is what others commit between its read and its write.
  unfoldable pub cancel_policy :
      ℕ → ℕ → ℕ → ℕ → Bool → (State → State) → State → Cancellation × State
  unfolding continue_cancel
  cancel_policy id now premium start_time audit_fails foreign s =
      continue_cancel id audit_fails foreign s
        (check_cancel now premium start_time (find_policy id s))

  -- The checks of `updatePolicy` on the row that was read; `key_is_valid` stands for
  -- `validateOracleKey` on the key and the new times.
  unfoldable pub check_update : UpdatePolicyDto → ℕ → (ℕ → ℕ → ℕ → Bool) → Option Policy → Update
  check_update dto start_time key_is_valid none = policy_not_found
  check_update dto start_time key_is_valid (some existing) =
      let start = time_or dto.start_time start_time in
      let end = time_or dto.end_time existing.end_time in
      let key = key_or dto.oracle_key existing.oracle_key in
      if leb end start
      then bad_times
      else if key == existing.oracle_key && start == start_time && end == existing.end_time
      then unchanged
      else if key_is_valid key start end
      then updated existing.status
      else key_refused

  unfoldable pub write_update : ℕ → UpdatePolicyDto → Bool → State → Update → Update × State
  unfolding amended
  write_update id dto audit_fails s policy_not_found = (policy_not_found, s)
  write_update id dto audit_fails s bad_times = (bad_times, s)
  write_update id dto audit_fails s unchanged = (unchanged, s)
  write_update id dto audit_fails s key_refused = (key_refused, s)
  write_update id dto audit_fails s (updated status) =
      let t = (update_policies id (λ p. true) (amended dto) s).0 in
      (updated status, if audit_fails then t else audit (policy_audit id status status) t)

  -- `updatePolicy`; the events that it announces are left out.
  unfoldable pub update_policy :
      ℕ → UpdatePolicyDto → ℕ → (ℕ → ℕ → ℕ → Bool) → Bool → State → Update × State
  unfolding check_update write_update
  update_policy id dto start_time key_is_valid audit_fails s =
      write_update id dto audit_fails s
        (check_update dto start_time key_is_valid (find_policy id s))
