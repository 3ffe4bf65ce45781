-- ===== src/Policy/Amend/Unversioned.antt =====
-- An update leaves the status and the version, on which the gate of a payout stands.
use parashield_backend.Base.{
  ℕ, ◌≡◌, refl, sym, ap, ◌∙◌, Bool, true, false, some, ==_refl, if◌then◌else◌,
}
use parashield_backend.Policy.Status.{PolicyStatus, active, processing}
use parashield_backend.Claims.Rows.{Policy, policy_audit}
use parashield_backend.Claims.Database.{Database, hits}
use parashield_backend.Claims.AutoProcess.Effects.{move_to, status_and_version}
use parashield_backend.Policy.Amend.{
  UpdatePolicyDto, Update, policy_not_found, bad_times, unchanged, key_refused, updated, amended,
  write_update, update_policy,
}

module _ (db : Database) where
  open db use {State, find_policy, update_policies, audit}

  audited-find :
      (fails : Bool) (id : ℕ) (status : PolicyStatus) (s : State)
      → find_policy id (if fails then s else audit (policy_audit id status status) s)
        ≡ find_policy id s
  audited-find true id status s = refl
  audited-find false id status s = db.find_policy-audit id (policy_audit id status status) s

  write_update-find :
      (id : ℕ) (dto : UpdatePolicyDto) (fails : Bool) (s t : State) (o : Update)
      (status : PolicyStatus) (p : Policy)
      → find_policy id s ≡ some p
      → write_update db id dto fails s o ≡ (updated status, t)
      → find_policy id t ≡ some (amended dto p)
  unfolding write_update amended
  write_update-find id dto fails s t policy_not_found status p found h = absurd cc
  write_update-find id dto fails s t bad_times status p found h = absurd cc
  write_update-find id dto fails s t unchanged status p found h = absurd cc
  write_update-find id dto fails s t key_refused status p found h = absurd cc
  write_update-find id dto fails s t (updated old) status p found h =
      let u = (update_policies id (λ q. true) (amended dto) s).0 in
      let state : (if fails then u else audit (policy_audit id old old) u) ≡ t = cc in
      ap (find_policy id) (sym state)
      ∙ audited-find fails id old u
      ∙ db.find_policy-update_policies id id (λ q. true) (amended dto) s
      ∙ rw (==_refl id, found) refl

  same_hits :
      (dto : UpdatePolicyDto) (version : ℕ) (p : Policy)
      → hits (status_and_version active version) (some (amended dto p))
        ≡ hits (status_and_version active version) (some p)
  unfolding amended
  same_hits dto version p = refl

  -- Where updatePolicy writes new times or a new key into a row, whatever its status, the gate of a
  -- payout, for a snapshot of any version, counts the row after the update exactly as before it: a
  -- snapshot with the old times or key is still good for a payout.
  pub update_unnoticed :
      (id start_time version : ℕ) (dto : UpdatePolicyDto) (key_is_valid : ℕ → ℕ → ℕ → Bool)
      (fails : Bool) (s t : State) (status : PolicyStatus) (p : Policy)
      → find_policy id s ≡ some p
      → update_policy db id dto start_time key_is_valid fails s ≡ (updated status, t)
      → (find_policy id t ≡ some (amended dto p))
        × ((update_policies id (status_and_version active version) (move_to processing) t).1
            ≡ (update_policies id (status_and_version active version) (move_to processing) s).1)
  unfolding update_policy
  update_unnoticed id start_time version dto key_is_valid fails s t status p found h =
      let after = write_update-find id dto fails s t _ status p found h in
      let gate = status_and_version active version in
      (
        after,
        db.count-update_policies id gate (move_to processing) t
            ∙ ap (hits gate) after
            ∙ same_hits dto version p
            ∙ ap (hits gate) (sym found)
            ∙ sym (db.count-update_policies id gate (move_to processing) s),
      )
