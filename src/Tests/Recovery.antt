-- ===== src/Tests/Recovery.antt =====
-- Witnesses for Claims.Recovery: a policy left in PROCESSING with one claim in flight.
use parashield_backend.Base.{false, none, List, [], ◌∷◌}
use parashield_backend.Claims.Recovery.{Stuck, Conditions, recover}
use parashield_backend.Claims.Recovery.Rules.{Recovered}
use parashield_backend.Claims.Recovery.Outcomes.{recover-Recovered}
use parashield_backend.Tests.Memory.{memory}
use parashield_backend.Tests.Claims.{made, reserved_tables}

abbrev stuck : Stuck
stuck = record { id = 7; claims = made ∷ [] }

abbrev calm : Conditions
calm = record { write_fails = false; audit_fails = false; aborts = λ n. none }

recover-Recovered_example :
    Recovered memory 100 stuck reserved_tables
      (recover memory 9000 100 calm stuck reserved_tables).0
      (recover memory 9000 100 calm stuck reserved_tables).1
recover-Recovered_example = recover-Recovered memory 9000 100 calm stuck reserved_tables

abbrev rows : List (Stuck × Conditions)
rows = (stuck, calm) ∷ (record { id = 8; claims = [] }, calm) ∷ []
