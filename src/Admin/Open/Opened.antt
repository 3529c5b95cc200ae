-- ===== src/Admin/Open/Opened.antt =====
-- What OpenAdminRequest checked and stored, when it succeeds.
use syrinx.Common.{
  find, some, ℕ, ◌+◌, ◌≤◌, String, ◌≡◌, true, false, ◌==◌, [], ◌∷◌, ◌++◌, any, ok, All, is_empty,
  length, is_sorted, compact,
}
use syrinx.Identity.{parse_identity_id}
use syrinx.Roles.{is_admin, is_root_identity}
use syrinx.Store.{User, AdminRequest, Db}
use syrinx.Store.Queries.{user_role}
use syrinx.Admin.{Env}
use syrinx.Admin.State
use syrinx.Admin.Rules.{target_count_fits}
use syrinx.Admin.Rules.Decider.{Holds}
use syrinx.Admin.Executors.{validate_action}
use syrinx.Admin.Open.Signer.{UnrevokedKey}
use syrinx.Admin.Open.{Message, request_payload, read_message}

-- A target is a local user with a row and no removal, and never root.
pub record Targetable (env : Env) (db : Db) (target : String) : Type 0 where
  pub local : (user : String) × (parse_identity_id target ≡ some (user, env.server_id))
  pub not_root : is_root_identity target env.server_id ≡ false
  pub known :
      (user : User) × (find (λ u. u.id == target) db.users ≡ some user)
      × (is_empty user.role ≡ false)
  pub present : any (λ r. r.user_id == target) db.account_removals ≡ false

-- The clocks are at most five minutes apart, and the requester is an admin who holds what the
-- request needs and grants, on targets that its action can still be carried out on.
pub record Valid (env : Env) (now : ℕ) (db : Db) (req : AdminRequest) (role : String) : Type 0 where
  pub id : env.valid_uuid req.id ≡ true
  pub recent : (now ≤ req.created_at + 300) × (req.created_at ≤ now + 300)
  pub ordered : is_sorted req.targets ≡ true
  pub unique : length (compact req.targets) ≡ length req.targets
  pub counted : target_count_fits req.action (length req.targets) ≡ true
  pub targets : All (Targetable env db) req.targets
  pub admin : is_admin role ≡ true
  pub holds : Holds db env.server_id req req.requester_id role
  pub feasible : validate_action env db req ≡ ok tt

pub record Opened (env : Env) (now : ℕ) (db : Db) (caller_id : String) (msg : Message) (after : Db)
    (req : AdminRequest) : Type 0 where
  pub armor : String
  pub by_caller : (msg.requester_id ≡ caller_id) × (req.requester_id ≡ caller_id)
  pub pending : req.state ≡ State.pending
  pub valid : Valid env now db (read_message caller_id msg) (user_role db caller_id)
  pub own_key : UnrevokedKey db msg.signature.key_id caller_id armor
  pub signed :
      env.crypto.verify_signature
        (request_payload (read_message caller_id msg))
        msg.signature.armor
        armor
      ≡ true
  pub fresh : any (λ r. r.id == req.id) db.admin_requests ≡ false
  pub stored : after.admin_requests ≡ db.admin_requests ++ req ∷ []
