-- ===== src/Admin/Foreign/Authorized.antt =====
-- What a certificate that verifyForeignAdminRequest of src/backend/admin.go accepts stands for.
use syrinx.Common.{String, ◌≡◌, ◌≢◌, ◌⊎◌, true, Option, some, contains}
use syrinx.Roles.{is_root_identity}
use syrinx.Signing.{Payload, Crypto}
use syrinx.Signing.Payloads
use syrinx.Store.{UserSignature, ServerSignature, AdminDecision, AdminRequest}
use syrinx.Admin.State
use syrinx.Admin.Decision
use syrinx.Admin.Open.{request_payload}
use syrinx.Admin.Foreign.Owner.{OwnKey}

module _ (crypto : Crypto) (resolve : String → Option String) (peer_server_id : String) where
  -- A payload signed with a key that is the user's own by its id
  pub record Signed (user_id : String) (sig : UserSignature) (payload : Payload) : Type 0 where
    pub own : OwnKey sig.key_id user_id peer_server_id
    pub armor : String
    pub resolved : resolve sig.key_id ≡ some armor
    pub genuine : crypto.verify_signature payload sig.armor armor ≡ true

  pub record Authorized (req : AdminRequest) (action target : String) : Type 0 where
    pub decision : AdminDecision
    pub decided : req.decision ≡ some decision
    pub countersigned : (sig : ServerSignature) × (req.server_signature ≡ some sig)
    pub approved :
        (req.action ≡ action)
        × (req.state ≡ State.executed)
        × (decision.decision ≡ Decision.approve)
    pub about : contains req.targets target ≡ true
    pub persons :
        (decision.decider_id ≢ req.requester_id)
        ⊎ (is_root_identity req.requester_id peer_server_id ≡ true)
    pub requester : Signed req.requester_id req.requester_signature (request_payload req)
    pub decider : Signed decision.decider_id decision.signature (
        Payloads.admin_decision req.id decision.decision decision.decider_id
          decision.signature.key_id req.requester_signature.armor)
