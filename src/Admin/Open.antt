-- ===== src/Admin/Open.antt =====
-- OpenAdminRequest of src/backend/admin.go: an admin signs a request that a second one must approve.
pub mod Signer
pub mod Opened
use syrinx.Common.{
  ℕ, String, not, ◌||◌, ◌==◌, if◌then◌else◌, Option, none, some, List, [], ◌∷◌, ◌++◌, any, Result,
  ok, err, refused, refuse_if, ◌>>=◌, ◌>>◌, is_empty, trim_space,
}
use syrinx.Roles.{is_admin}
use syrinx.Signing.{Payload}
use syrinx.Signing.Payloads
use syrinx.Store.{UserSignature, AdminRequest, Db}
use syrinx.Store.Queries.{user_role, Key, get_public_key}
use syrinx.Admin.{Env, countersign}
use syrinx.Admin.State
use syrinx.Admin.Validate.{validate_new_admin_request}

-- pb.AdminRequest, in the fields that the handler reads.
pub record Message : Type 0 where
  pub id : String
  pub action : String
  pub requester_id : String
  pub reason : String
  pub targets : List String
  pub body : String
  pub created_at : ℕ
  pub signature : UserSignature

-- adminCaller
unfoldable pub admin_caller : Db → String → Result String
admin_caller db caller_id =
    refuse_if (is_empty caller_id) (refused 401 "authentication required")
    >> ok (user_role db caller_id)

active_key_of : String → Option Key → Result Key
active_key_of user_id none = err (refused 401 "bad_key")
active_key_of user_id (some key) =
    if not (key.user_id == user_id) || key.revoked then err (refused 401 "bad_key") else ok key

-- callerSigningKey
unfoldable pub caller_signing_key : Db → String → String → Result Key
unfolding active_key_of
caller_signing_key db key_id user_id = active_key_of user_id (get_public_key db key_id)

-- adminRequest.payload
unfoldable pub request_payload : AdminRequest → Payload
request_payload req =
    Payloads.admin_request req.id req.action req.requester_id req.requester_signature.key_id
      req.reason req.targets req.body req.created_at

-- insertAdminRequestTx, on the table's primary key
unfoldable pub insert_admin_request : Db → AdminRequest → Result Db
insert_admin_request db req =
    if any (λ r. r.id == req.id) db.admin_requests
    then err (refused 409 "exists")
    else ok (record db { admin_requests = db.admin_requests ++ req ∷ [] })

-- The request as it is read off the message, not countersigned yet.
unfoldable pub read_message : String → Message → AdminRequest
read_message caller_id msg = record {
  id = trim_space msg.id;
  action = msg.action;
  requester_id = caller_id;
  reason = msg.reason;
  targets = msg.targets;
  dropped = [];
  body = msg.body;
  created_at = msg.created_at;
  requester_signature = msg.signature;
  requester_server_signature = record { key_id = ""; armor = ""; signed_at = 0 };
  state = State.pending;
  decision = none;
  server_signature = none;
}

-- OpenAdminRequest
unfoldable pub open_admin_request : Env → ℕ → Db → String → Message → Result (Db × AdminRequest)
open_admin_request env now db caller_id msg = do
  role ← admin_caller db caller_id
  refuse_if (not (is_admin role)) (refused 403 "not_admin")
  refuse_if (not (msg.requester_id == caller_id)) (refused 403 "requesterID must be the caller")
  let req = read_message caller_id msg
  validate_new_admin_request env now db req role
  key ← caller_signing_key db req.requester_signature.key_id caller_id
  refuse_if
      (not
        (env.crypto.verify_signature (request_payload req) req.requester_signature.armor key.armor))
      (refused 401 "bad_signature")
  opened ←
      countersign env
        (Payloads.admin_request_opened req.id req.requester_signature.armor env.server_id
          env.fingerprint now)
        now
  let stored = record req { requester_server_signature = opened }
  after ← insert_admin_request db stored
  ok (after, stored)
