-- ===== src/Policy/Status/Graph.antt =====
-- The transition graph of a policy's status, and what follows along any sequence of transitions.
use parashield_backend.Base.{◌≡◌, refl, ◌↔◌, ◌≢◌, inl, inr, true, none, some, arith, Bool-cases}
use parashield_backend.Policy.Status.{
  PolicyStatus, active, processing, expired, cancelled, claimed, error, can_transition, transition,
}

-- The edges that the comment above the table draws.
infix 40 ◌⟶◌
pub data ◌⟶◌ : PolicyStatus → PolicyStatus → Type 0 where
  expire : active ⟶ expired
  cancel : active ⟶ cancelled
  claim : active ⟶ claimed
  gate : active ⟶ processing
  pay : processing ⟶ claimed
  release : processing ⟶ active
  fail : active ⟶ error
  fail_midway : processing ⟶ error

pub ruleset edges = (expire, cancel, claim, gate, pay, release, fail, fail_midway)

edge_allowed : {a b : PolicyStatus} → a ⟶ b → can_transition a b ≡ true
unfolding can_transition
edge_allowed expire = refl
edge_allowed cancel = refl
edge_allowed claim = refl
edge_allowed gate = refl
edge_allowed pay = refl
edge_allowed release = refl
edge_allowed fail = refl
edge_allowed fail_midway = refl

allowed_edge : (a b : PolicyStatus) → can_transition a b ≡ true → a ⟶ b
unfolding can_transition
allowed_edge active active h = cc
allowed_edge active processing h = gate
allowed_edge active b h = grind (arith, edges)
allowed_edge processing b h = grind (arith, edges)
allowed_edge a b h = cc

-- `can_transition` accepts exactly the edges of the documented graph, and `transition` returns the
-- target there and throws on every other pair of statuses.
pub transition_iff :
    (a b : PolicyStatus)
    → ((can_transition a b ≡ true) ↔ (a ⟶ b))
      × ((a ⟶ b) → transition a b ≡ some b)
      × (¬ (a ⟶ b) → transition a b ≡ none)
unfolding transition
transition_iff a b = (
  (allowed_edge a b, edge_allowed),
  λ e. rw (edge_allowed e),
  λ no_edge. elim (Bool-cases (can_transition a b)) [
    | inl t ↦ absurd (no_edge (allowed_edge a b t))
    | inr f ↦ rw f
  ],
)

-- A run of transitions that all succeed.
infix 40 ◌⟶*◌
pub data ◌⟶*◌ : PolicyStatus → PolicyStatus → Type 0 where
  here : {a : PolicyStatus} → a ⟶* a
  next : {a b c : PolicyStatus} → a ⟶ b → b ⟶* c → a ⟶* c

abbrev pub IsTerminal : PolicyStatus → Type 0
IsTerminal a = (a ≢ active) × (a ≢ processing)

terminal_no_edge : {a b : PolicyStatus} → a ⟶ b → IsTerminal a → ⊥
terminal_no_edge expire t = t.0 refl
terminal_no_edge cancel t = t.0 refl
terminal_no_edge claim t = t.0 refl
terminal_no_edge gate t = t.0 refl
terminal_no_edge pay t = t.1 refl
terminal_no_edge release t = t.1 refl
terminal_no_edge fail t = t.0 refl
terminal_no_edge fail_midway t = t.1 refl

-- A status other than ACTIVE and PROCESSING is never left: every transition out of it throws, and
-- every run of successful transitions from it ends where it began.
pub terminal_absorbs :
    (a : PolicyStatus)
    → IsTerminal a
    → ((b : PolicyStatus) → transition a b ≡ none) × ((b : PolicyStatus) → a ⟶* b → b ≡ a)
terminal_absorbs a t = (λ b. (transition_iff a b).2 (λ e. terminal_no_edge e t), λ b r. stays t r)
  where
    stays : {c d : PolicyStatus} → IsTerminal c → c ⟶* d → d ≡ c
    stays u here = refl
    stays u (next e r) = absurd (terminal_no_edge e u)
