-- ===== src/Admin/Steps.antt =====
-- What changes the admin tables of src/backend/admin.go, as a step relation: an opened request, a
-- committed decision, a request closed as moot, and a removed user's targets dropped. A decision and
-- a moot closing are prepared on an earlier state of the database: other steps may have committed
-- since.
pub mod Evolve
pub mod Invariant
use syrinx.Common.{
  ℕ, String, ◌≡◌, ◌≢◌, ◌⊎◌, Bool, true, false, Option, none, some, List, Result, ok, All, contains,
  Distinct,
}
use syrinx.Roles.{is_root_identity}
use syrinx.Store.{AdminDecision, ServerSignature, AdminRequest, Db}
use syrinx.Ledger.Chain.{IsChain}
use syrinx.Admin.{Env}
use syrinx.Admin.State
use syrinx.Admin.Decision
use syrinx.Admin.Rules.{state_for_decision}
use syrinx.Admin.Open.{Message, open_admin_request}
use syrinx.Admin.Decide.{Prepared, prepare_decision, commit_decision}
use syrinx.Admin.Moot.{moot_signature, commit_moot, drop_from_admin_requests}

pub data Step (env : Env) : Db → Db → Type 0 where
  opened :
      (now : ℕ) (db after : Db) (caller_id : String) (msg : Message) (req : AdminRequest)
      → open_admin_request env now db caller_id msg ≡ ok (after, req)
      → Step env db after
  decided :
      (asked now : ℕ) (earlier db after : Db) (caller_id request_id : String)
      (decision : AdminDecision) (p : Prepared)
      → prepare_decision env asked earlier caller_id request_id decision ≡ ok p
      → commit_decision env now db p ≡ ok after
      → Step env db after
  mooted :
      (asked : ℕ) (earlier db after : Db) (request_id : String) (sig : ServerSignature)
      → moot_signature env asked earlier request_id ≡ ok (some sig)
      → commit_moot db request_id sig ≡ ok after
      → Step env db after
  dropped :
      (now : ℕ) (db : Db) (user_id : String)
      → Step env db (drop_from_admin_requests env now db user_id)

pub data Steps (env : Env) : Db → Db → Type 0 where
  done : (db : Db) → Steps env db db
  more : (a b c : Db) → Step env a b → Steps env b c → Steps env a c

-- Two people stand behind an approval or a rejection, root excepted, and no target decides; a
-- withdrawal is the requester's own.
abbrev pub TwoPersons : Env → AdminRequest → AdminDecision → Type 0
TwoPersons env r d =
    ((d.decision ≡ Decision.withdraw) × (d.decider_id ≡ r.requester_id))
    ⊎ ((d.decision ≢ Decision.withdraw)
        × ((d.decider_id ≢ r.requester_id) ⊎ (is_root_identity d.decider_id env.server_id ≡ true))
        × (contains r.targets d.decider_id ≡ false))

pub record Decided (env : Env) (r : AdminRequest) : Type 0 where
  pub decision : AdminDecision
  pub signature : ServerSignature
  pub recorded : r.decision ≡ some decision
  pub signed : r.server_signature ≡ some signature
  pub leads : r.state ≡ state_for_decision decision.decision
  pub persons : TwoPersons env r decision

-- A request is pending without a decision, or closed by one, or moot.
abbrev pub Sound : Env → AdminRequest → Type 0
Sound env r =
    ((r.state ≡ State.pending) × (r.decision ≡ none) × (r.server_signature ≡ none))
    ⊎ (Decided env r ⊎ ((r.state ≡ State.moot) × (r.decision ≡ none)))

pub record Inv (env : Env) (db : Db) : Type 0 where
  pub distinct : Distinct (λ r. r.id) db.admin_requests
  pub sound : All (Sound env) db.admin_requests
  pub chain : IsChain db
