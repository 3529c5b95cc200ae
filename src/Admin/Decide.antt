-- ===== src/Admin/Decide.antt =====
-- DecideAdminRequest of src/backend/admin.go: an approval or rejection by an eligible admin, or the
-- requester's withdrawal. The handler works in two steps, between which other calls may commit:
-- `prepare_decision` reads and checks what it can without a lock, `commit_decision` is the
-- transaction, which locks the row and reads it again.
pub mod Guard
pub mod Prepare
use syrinx.Common.{
  ℕ, String, Bool, true, false, not, ◌&&◌, ◌||◌, ◌==◌, if◌then◌else◌, Option, none, some, List, [],
  ◌∷◌, any, update, Result, ok, err, refused, refuse_if, or_fail, ◌>>=◌, ◌>>◌, is_empty,
}
use syrinx.Signing.Payloads
use syrinx.Store.{UserSignature, ServerSignature, AdminDecision, AdminRequest, LedgerEntry, Db}
use syrinx.Store.Queries.{get_admin_request, Key}
use syrinx.Ledger.{append_ledger, ledger_approved_entry}
use syrinx.Admin.{Env, countersign, opened_before_recovery}
use syrinx.Admin.State
use syrinx.Admin.Decision
use syrinx.Admin.Rules.{state_for_decision, decision_for_state, check_decider}
use syrinx.Admin.Open.{admin_caller, caller_signing_key}
use syrinx.Admin.Executors.{has_executor, validate_action, execute_action}
use syrinx.Admin.Executors.Rebind.{rebind_key_id}

-- What the handler carries into the transaction; `approves` is `ex != nil`.
pub record Prepared : Type 0 where
  pub request_id : String
  pub caller_id : String
  pub decision : AdminDecision
  pub state : String
  pub approves : Bool
  pub server_signature : ServerSignature

unfoldable pub prepare_decision : Env → ℕ → Db → String → String → AdminDecision → Result Prepared
prepare_decision env now db caller_id request_id decision = do
  role ← admin_caller db caller_id
  let state = state_for_decision decision.decision
  refuse_if (is_empty state) (refused 400 "decision must be approve, reject or withdraw")
  refuse_if (not (decision.decider_id == caller_id)) (refused 403 "deciderID must be the caller")
  req ← or_fail (get_admin_request db request_id) (refused 404 "Request not found")
  refuse_if (not (req.state == State.pending)) (refused 409 "not_pending")
  refuse_if (opened_before_recovery env db req) (refused 409 "opened_before_recovery")
  key ← caller_signing_key db decision.signature.key_id caller_id
  refuse_if
      (not (
        env.crypto.verify_signature
          (Payloads.admin_decision req.id decision.decision caller_id decision.signature.key_id
            req.requester_signature.armor)
          decision.signature.armor key.armor))
      (refused 401 "bad_signature")
  let approves = decision.decision == Decision.approve
  refuse_if (approves && not (has_executor req.action)) (refused 501 "unavailable")
  sig ←
      countersign env
        (Payloads.admin_request_server req.id state req.requester_signature.armor
          decision.signature.armor env.server_id env.fingerprint now)
        now
  ok (record {
    request_id = req.id;
    caller_id = caller_id;
    decision = decision;
    state = state;
    approves = approves;
    server_signature = sig;
  })

-- scanAdminRequest reads the decision's name back from the state.
unfoldable pub decision_in : String → Option AdminDecision → Option AdminDecision
decision_in state none = none
decision_in state (some d) = some (record d { decision = decision_for_state state })

-- The row as it reads once it is closed.
unfoldable pub closed :
    String → Option AdminDecision → ServerSignature → AdminRequest → AdminRequest
unfolding decision_in
closed state decision sig req = record req {
  state = state;
  decision = decision_in state decision;
  server_signature = some sig;
}

-- closeAdminRequestTx
unfoldable pub close_admin_request :
    Db → AdminRequest → String → Option AdminDecision → ServerSignature → Result Db
close_admin_request db req state decision sig =
    if any (λ r. r.id == req.id && r.state == State.pending) db.admin_requests
    then ok (record db {
      admin_requests =
          update (λ r. r.id == req.id && r.state == State.pending) (closed state decision sig)
            db.admin_requests;
    })
    else err (refused 409 "not_pending")

-- Who may: the requester withdraws, others are checked as deciders.
unfoldable check_caller : Env → Db → AdminRequest → Prepared → Result (Unit {0})
check_caller env db locked p =
    if p.decision.decision == Decision.withdraw
    then refuse_if (not (p.caller_id == locked.requester_id)) (refused 403 "not_requester")
    else check_decider db env.server_id locked p.caller_id

-- `ex.validate` and `ex.execute`, of an approval
unfoldable run_executor : Env → ℕ → Db → AdminRequest → Prepared → Result Db
run_executor env now db locked p =
    if p.approves
    then (validate_action env db (record locked { decision = some p.decision })
        >> execute_action env now db (record locked { decision = some p.decision }))
    else ok db

append_entry : Env → ℕ → Db → Option LedgerEntry → Result Db
append_entry env now db none = ok db
append_entry env now db (some e) = append_ledger env now db e >>= λ r. ok r.0

unfoldable log_approval : Env → ℕ → Db → AdminRequest → Prepared → Result Db
unfolding append_entry
log_approval env now db req p =
    if not (p.state == State.executed)
    then ok db
    else append_entry env now db (ledger_approved_entry req p.caller_id (rebind_key_id env req))

-- The transaction; an error rolls all of it back.
unfoldable pub commit_decision : Env → ℕ → Db → Prepared → Result Db
unfolding check_caller run_executor log_approval
commit_decision env now db p = do
  locked ← or_fail (get_admin_request db p.request_id) (refused 409 "not_pending")
  refuse_if (not (locked.state == State.pending)) (refused 409 "not_pending")
  check_caller env db locked p
  executed ← run_executor env now db locked p
  after ← close_admin_request executed locked p.state (some p.decision) p.server_signature
  log_approval env now after locked p

-- DecideAdminRequest, where nothing else commits in between
unfoldable pub decide_admin_request : Env → ℕ → Db → String → String → AdminDecision → Result Db
decide_admin_request env now db caller_id request_id decision =
    prepare_decision env now db caller_id request_id decision >>= λ p. commit_decision env now db p
