-- ===== src/Claims/Worker.antt =====
-- The step of src/claims/claims.worker.ts for one policy of its scan: autoProcess, then the guarded
-- transition to EXPIRED. The scan finds ACTIVE policies, so the queried status is ACTIVE.
use parashield_backend.Base.{ℕ, ◌≡◌, refl, ◌∙◌, Bool, true, false, some, ==_refl, if◌then◌else◌}
use parashield_backend.Policy.Status.{active, expired, status_eq}
use parashield_backend.Claims.Rows.{Policy}
use parashield_backend.Claims.Database.{Database}
use parashield_backend.Claims.AutoProcess.{
  Failure, Ending, returned, thrown, Surroundings, auto_process,
}
use parashield_backend.Claims.AutoProcess.Effects.{move_to}
use parashield_backend.Claims.AutoProcess.Evaluate.{ClaimResult, paid, pending_final_period}

-- `result !== 'Paid' && result !== 'PendingFinalPeriod'`
abbrev pub expires : ClaimResult → Bool
expires paid = false
expires pending_final_period = false
expires result = true

-- How the step of one policy settles: with a result and the count of the EXPIRED write, or rejected.
pub data Settled : Type 0 where
  fulfilled : ClaimResult → ℕ → Settled
  refused : Failure → Settled

module _ (db : Database) where
  open db use {State, find_policy, update_policies}

  unfoldable pub expire : ℕ → State → State × ℕ
  expire id s = update_policies id (λ p. status_eq p.status active) (move_to expired) s

  abbrev pub after_result : Ending → ℕ → (State → State) → State → Settled × State
  after_result (thrown f) id before s = (refused f, s)
  after_result (returned r) id before s =
      let (t, n) = expire id (before s) in
      if expires r then (fulfilled r n, t) else (fulfilled r 0, s)

  -- One policy of a batch; `before` is what others commit ahead of the EXPIRED write.
  unfoldable pub process_one : ℕ → Surroundings State → (State → State) → State → Settled × State
  process_one id env before s =
      let run = auto_process db id env s in after_result run.ending id before run.state

  expired_row :
      (id : ℕ) (p : Policy) (s : State)
      → find_policy id s ≡ some p
      → find_policy id (expire id s).0
        ≡ some (if status_eq p.status active then move_to expired p else p)
  unfolding expire
  expired_row id p s e =
      db.find_policy-update_policies id id (λ q. status_eq q.status active) (move_to expired) s
      ∙ rw (==_refl id, e) refl

  -- After a result other than 'Paid' and 'PendingFinalPeriod', a policy that is still ACTIVE becomes
  -- EXPIRED, one version on, and a policy of another status is left as it is.
  pub step_expires :
      (id : ℕ) (env : Surroundings State) (before : State → State) (s : State) (r : ClaimResult)
      (p : Policy)
      → (auto_process db id env s).ending ≡ returned r
      → expires r ≡ true
      → find_policy id (before (auto_process db id env s).state) ≡ some p
      → (p.status ≡ active
          → find_policy id (process_one id env before s).1 ≡ some (move_to expired p))
        × (status_eq p.status active ≡ false
            → find_policy id (process_one id env before s).1 ≡ some p)
  unfolding process_one
  step_expires id env before s r p ends e found =
      let row : find_policy id (process_one id env before s).1
          ≡ some (if status_eq p.status active then move_to expired p else p) =
        rw (ends, e) (expired_row id p (before (auto_process db id env s).state) found) in
      (λ a. row ∙ rw a refl, λ b. row ∙ rw b refl)
