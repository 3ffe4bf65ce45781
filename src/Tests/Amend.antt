-- ===== src/Tests/Amend.antt =====
-- Witnesses for Policy.Amend, on the policy of Tests.Claims.
use parashield_backend.Base.{◌≡◌, ◌≢◌, refl, true, none, some}
use parashield_backend.Policy.Status.{active, processing, cancelled, expired, transition}
use parashield_backend.Policy.Premium.{refund_stroops}
use parashield_backend.Claims.Rows.{Policy}
use parashield_backend.Claims.Transaction.{commit}
use parashield_backend.Claims.Evolution.{here, policy_write}
use parashield_backend.Claims.AutoProcess.{reserved, new_claim, reserve}
use parashield_backend.Claims.AutoProcess.Effects.{move_to, status_and_version}
use parashield_backend.Policy.Amend.{cancel_policy, UpdatePolicyDto, amended, update_policy}
use parashield_backend.Policy.Amend.Cancelled.{
  IsCancelled, cancel_policy-IsCancelled, cancelled_not_reserved,
}
use parashield_backend.Policy.Amend.Unversioned.{update_unnoticed}
use parashield_backend.Tests.Memory.{Tables, memory}
use parashield_backend.Tests.Claims.{policy, tables}

-- The rows after a cancellation at three quarters of the term to go, for a premium of 100 stroops.
abbrev cancelled_tables : Tables
cancelled_tables = (cancel_policy memory 7 2000 100 1000 true (λ s. s) tables).1

cancel_policy-IsCancelled_example :
    ((p : Policy) × (some policy ≡ some p)
      × (transition p.status cancelled ≢ none)
      × (75 ≡ refund_stroops 100 1000 p.end_time 2000))
    × IsCancelled memory 7 tables cancelled_tables
unfolding cancel_policy transition refund_stroops
cancel_policy-IsCancelled_example =
    cancel_policy-IsCancelled memory 7 2000 100 1000 75 true (λ s. s) tables cancelled_tables refl

-- The EXPIRED write of the worker follows.
abbrev later_tables : Tables
later_tables = (memory.update_policies 7 (λ p. true) (move_to expired) cancelled_tables).0

cancelled_not_reserved_example :
    ¬ (reserve memory 7 policy later_tables ≡ commit (reserved (new_claim 1 7 policy)) tables)
unfolding cancel_policy transition refund_stroops
cancelled_not_reserved_example =
    cancelled_not_reserved memory 7 2000 100 1000 75 true (λ s. s) tables tables cancelled_tables
      later_tables tables policy (new_claim 1 7 policy) refl here refl
      (policy_write 7 (λ p. true) expired here)

-- The end of the term is put off to 9000 s.
abbrev later_end : UpdatePolicyDto
later_end = record { start_time = none; end_time = some 9000; oracle_key = none }

abbrev amended_tables : Tables
amended_tables = (update_policy memory 7 later_end 1000 (λ k s e. true) true tables).1

update_unnoticed_example :
    (amended_tables.policies 7 ≡ some (amended later_end policy))
    × ((memory.update_policies 7
          (status_and_version active 2)
          (move_to processing)
          amended_tables).1
        ≡ (memory.update_policies 7 (status_and_version active 2) (move_to processing) tables).1)
unfolding update_policy
update_unnoticed_example =
    update_unnoticed memory 7 1000 2 later_end (λ k s e. true) true tables amended_tables active
      policy refl refl
