-- ===== src/Admin/Decide/Guard.antt =====
-- What the transaction of DecideAdminRequest checked, closed and logged, when it commits.
use syrinx.Common.{
  ℕ, ◌+◌, String, ◌≡◌, ◌≢◌, refl, subst, ◌∙◌, ◌⊎◌, inl, inr, not, ◌&&◌, ◌==◌, if◌then◌else◌, Option,
  none, some, [], ◌∷◌, ◌++◌, any, update, ok, refuse_if, or_fail, >>=-eq-ok, >>-eq-ok,
  ne_of_eq-false, eq_iff, or_fail-some, ap, ok_inj, err-ok, if_ok, Bool-cases,
}
use syrinx.Store.{ServerSignature, AdminDecision, AdminRequest, LedgerEntry, Db}
use syrinx.Store.Queries.{get_admin_request}
use syrinx.Ledger.{append_ledger_entry, append_ledger, ledger_approved_entry}
use syrinx.Ledger.Chain.{
  IsChain, Appended, append_ledger_entry-Appended, append_ledger_entry-requests, top,
}
use syrinx.Admin.{Env, countersign}
use syrinx.Admin.State
use syrinx.Admin.Decision
use syrinx.Admin.Rules.Decider.{refuse_if-not, Eligible, check_decider_iff}
use syrinx.Admin.Executors.{validate_action}
use syrinx.Admin.Executors.Frame.{Same, Same-refl, execute_action-Same}
use syrinx.Admin.Executors.Rebind.{rebind_key_id}
use syrinx.Admin.Decide.{
  Prepared, closed, close_admin_request, check_caller, run_executor, log_approval, append_entry,
  commit_decision,
}

-- The requester withdraws; anyone else who decides is eligible, by the tables as they are now.
abbrev pub Allowed : Env → Db → AdminRequest → Prepared → Type 0
Allowed env db req p =
    ((p.decision.decision ≡ Decision.withdraw) × (p.caller_id ≡ req.requester_id))
    ⊎ ((p.decision.decision ≢ Decision.withdraw) × Eligible db env.server_id req p.caller_id)

abbrev pub Logged : Env → ℕ → Option LedgerEntry → Db → Db → Type 0
Logged env now none before after =
    (after.ledger_entries ≡ before.ledger_entries) × (after.next_ledger_id ≡ before.next_ledger_id)
Logged env now (some e) before after =
    (entry : LedgerEntry) × Appended (countersign env) env.server_id env.fingerprint now before e
      after entry

-- The entry that an executed request leaves in the ledger.
abbrev pub entry_for : Env → AdminRequest → Prepared → Option LedgerEntry
entry_for env req p =
    if p.state == State.executed
    then ledger_approved_entry req p.caller_id (rebind_key_id env req)
    else none

pub record Committed (env : Env) (now : ℕ) (db : Db) (p : Prepared) (after : Db) : Type 0 where
  pub locked : AdminRequest
  pub found : get_admin_request db p.request_id ≡ some locked
  pub pending : locked.state ≡ State.pending
  pub allowed : Allowed env db locked p
  pub requests :
      after.admin_requests
      ≡ update
          (λ r. r.id == locked.id && r.state == State.pending)
          (closed p.state (some p.decision) p.server_signature)
          db.admin_requests
  pub logged : Logged env now (entry_for env locked p) db after

check_caller-Allowed :
    (env : Env) (db : Db) (req : AdminRequest) (p : Prepared)
    → check_caller env db req p ≡ ok tt
    → Allowed env db req p
unfolding check_caller
check_caller-Allowed env db req p h =
    if_ok (p.decision.decision == Decision.withdraw) {a = tt}
      (λ w h1.
        inl
          ((eq_iff _ _).0 w, (eq_iff _ _).0 (refuse_if-not (p.caller_id == req.requester_id) _ h1)))
      (λ n h1.
        inr (ne_of_eq-false _ _ n, (check_decider_iff db env.server_id req p.caller_id).0 h1))
      h

run_executor-Same :
    (env : Env) (now : ℕ) (db : Db) (req : AdminRequest) (p : Prepared) {after : Db}
    → run_executor env now db req p ≡ ok after
    → Same db after
unfolding run_executor
run_executor-Same env now db req p {after} h =
    if_ok p.approves {a = after}
      (λ _ h1.
        execute_action-Same env now db (record req { decision = some p.decision })
          (>>-eq-ok (validate_action env db _) _ h1).1)
      (λ _ h1. subst (λ d. Same db d) (ok_inj h1) (Same-refl db)) h

-- Closing changes one row of the requests, and nothing else.
pub record Closed (before after : Db) (req : AdminRequest) (state : String)
    (decision : Option AdminDecision) (sig : ServerSignature) : Type 0 where
  pub requests :
      after.admin_requests
      ≡ update
          (λ r. r.id == req.id && r.state == State.pending)
          (closed state decision sig)
          before.admin_requests
  pub entries : after.ledger_entries ≡ before.ledger_entries
  pub next_id : after.next_ledger_id ≡ before.next_ledger_id

pub close_admin_request-Closed :
    (db : Db) (req : AdminRequest) (state : String) (decision : Option AdminDecision)
    (sig : ServerSignature) {after : Db}
    → close_admin_request db req state decision sig ≡ ok after
    → Closed db after req state decision sig
unfolding close_admin_request
close_admin_request-Closed db req state decision sig {after} h =
    if_ok (any (λ r. r.id == req.id && r.state == State.pending) db.admin_requests) {a = after}
      (λ _ h1.
        subst (λ d. Closed db d req state decision sig) (ok_inj h1)
          (record { requests = refl; entries = refl; next_id = refl }))
      (λ _. err-ok) h

append_entry-Logged :
    (env : Env) (now : ℕ) (e : Option LedgerEntry) (db : Db) {after : Db}
    → IsChain db
    → append_entry env now db e ≡ ok after
    → Logged env now e db after × (after.admin_requests ≡ db.admin_requests)
unfolding append_entry append_ledger
append_entry-Logged env now none db c h =
    subst (λ d. Logged env now none db d × (d.admin_requests ≡ db.admin_requests)) (ok_inj h)
      ((refl, refl), refl)
append_entry-Logged env now (some e) db {after} c h =
    let (r, made, h1) =
      >>=-eq-ok (append_ledger_entry db (countersign env) env.server_id env.fingerprint now e) _
        h in
    let a =
      append_ledger_entry-Appended db (countersign env) env.server_id env.fingerprint now e c
        made in
    subst (λ d. Logged env now (some e) db d × (d.admin_requests ≡ db.admin_requests)) (ok_inj h1)
      (
        (r.1, a),
        append_ledger_entry-requests db (countersign env) env.server_id env.fingerprint now e made,
      )

log_approval-Logged :
    (env : Env) (now : ℕ) (db : Db) (req : AdminRequest) (p : Prepared) {after : Db}
    → IsChain db
    → log_approval env now db req p ≡ ok after
    → Logged env now (entry_for env req p) db after × (after.admin_requests ≡ db.admin_requests)
unfolding log_approval
log_approval-Logged env now db req p {after} c h = elim (Bool-cases (p.state == State.executed)) [
  | inl t ↦ rw t (append_entry-Logged env now _ db c (rw t at h))
  | inr f ↦ rw f (
      subst (λ d. Logged env now none db d × (d.admin_requests ≡ db.admin_requests))
        (ok_inj (rw f at h)) ((refl, refl), refl))
]

-- The ledger is all that a chain speaks of.
pub Closed-IsChain :
    (before after : Db)
    → after.ledger_entries ≡ before.ledger_entries
    → after.next_ledger_id ≡ before.next_ledger_id
    → IsChain before
    → IsChain after
Closed-IsChain before after e n c = rw (e, n) c

Logged-before :
    (env : Env) (now : ℕ) (e : Option LedgerEntry) (before mid after : Db)
    → mid.ledger_entries ≡ before.ledger_entries
    → mid.next_ledger_id ≡ before.next_ledger_id
    → Logged env now e mid after
    → Logged env now e before after
Logged-before env now none before mid after es n l = (l.0 ∙ es, l.1 ∙ n)
Logged-before env now (some e) before mid after es n (entry, a) = (
  entry,
  record {
    entries = a.entries ∙ ap (λ xs. xs ++ entry ∷ []) es;
    number = (a.number.0 ∙ n, a.number.1 ∙ ap (λ k. k + 1) n);
    follows = a.follows ∙ ap (top 0) es;
    signed = rw es at a.signed;
    content = a.content;
    chained = a.chained;
  },
)

module _ (env : Env) (now : ℕ) (db : Db) (p : Prepared) where
  -- A decision that commits on a chained ledger was on a pending request, by its requester
  -- withdrawing or by someone eligible; it closes that request alone, and adds the entry that an
  -- executed request leaves to the ledger, or none.
  pub commit_decision-Committed :
      {after : Db}
      → IsChain db
      → commit_decision env now db p ≡ ok after
      → Committed env now db p after
  unfolding commit_decision
  commit_decision-Committed {after} c h =
      let (locked, f, h1) = >>=-eq-ok (or_fail (get_admin_request db p.request_id) _) _ h in
      let (pend, h2) = >>-eq-ok (refuse_if (not (locked.state == State.pending)) _) _ h1 in
      let (who, h3) = >>-eq-ok (check_caller env db locked p) _ h2 in
      let (executed, ran, h4) = >>=-eq-ok (run_executor env now db locked p) _ h3 in
      let (mid, shut, h5) =
        >>=-eq-ok (close_admin_request executed locked p.state _ p.server_signature) _ h4 in
      let same = run_executor-Same env now db locked p ran in
      let shut' =
        close_admin_request-Closed executed locked p.state (some p.decision) p.server_signature
          shut in
      let next = shut'.next_id ∙ same.next_id in
      let entries = shut'.entries ∙ same.entries in
      let chain = Closed-IsChain db mid entries next c in
      let (logs, rest) = log_approval-Logged env now mid locked p chain h5 in
      record {
        locked = locked;
        found = or_fail-some _ f;
        pending = (eq_iff _ _).0 (refuse_if-not (locked.state == State.pending) _ pend);
        allowed = check_caller-Allowed env db locked p who;
        requests =
            rest
            ∙ shut'.requests
            ∙ ap
                (update (λ r. r.id == locked.id && r.state == State.pending)
                  (closed p.state (some p.decision) p.server_signature))
                same.requests;
        logged = Logged-before env now (entry_for env locked p) db mid after entries next logs;
      }
