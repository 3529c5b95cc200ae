-- ===== src/Admin/Rules/States.antt =====
-- stateForDecision and decisionForState of src/backend/admin.go.
use syrinx.Common.{
  String, ◌≡◌, refl, true, false, ◌==◌, inl, inr, is_empty, arith, text_cases, Bool-cases,
}
use syrinx.Admin.State
use syrinx.Admin.Decision
use syrinx.Admin.Rules.{state_for_decision, decision_for_state}

-- A decision that leads to a state is read back from that state.
pub decision_for_state-state_for_decision :
    (d : String)
    → is_empty (state_for_decision d) ≡ false
    → decision_for_state (state_for_decision d) ≡ d
unfolding state_for_decision decision_for_state
decision_for_state-state_for_decision d h = elim (text_cases d Decision.approve) [
  | inl a ↦ rw a.0 refl
  | inr na ↦ elim (text_cases d Decision.reject) [
    | inl r ↦ rw r.0 refl
    | inr nr ↦ elim (text_cases d Decision.withdraw) [
      | inl w ↦ rw w.0 refl
      | inr nw ↦ let bad : true ≡ false = rw (na.1, nr.1, nw.1) at h in ground arith
    ]
  ]
]

-- No decision leads to a pending request.
pub state_for_decision-pending : (d : String) → (state_for_decision d == State.pending) ≡ false
unfolding state_for_decision
state_for_decision-pending d = elim (Bool-cases (d == Decision.approve)) [
  | inl a ↦ rw a refl
  | inr na ↦ elim (Bool-cases (d == Decision.reject)) [
    | inl r ↦ rw (na, r) refl
    | inr nr ↦ elim (Bool-cases (d == Decision.withdraw)) [
      | inl w ↦ rw (na, nr, w) refl
      | inr nw ↦ rw (na, nr, nw) refl
    ]
  ]
]
