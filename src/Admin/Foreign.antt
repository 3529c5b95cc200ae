-- ===== src/Admin/Foreign.antt =====
-- verifyForeignAdminRequest of src/backend/admin.go: a peer's approved request, as a certificate.
-- Resolving a key may ask the peer for it: `resolve`, from a key's id to its armor, is a parameter.
pub mod Owner
pub mod Authorized
use syrinx.Common.{
  ℕ, String, Bool, true, false, not, ◌&&◌, ◌||◌, ◌==◌, if◌then◌else◌, Option, none, some, List, [],
  ◌∷◌, Result, ok, err, failed, refuse_if, or_fail, ◌>>=◌, ◌>>◌, contains,
}
use syrinx.Identity.{canonical_id, parse_key_fingerprint}
use syrinx.Roles.{is_root_identity}
use syrinx.Signing.{Payload, Crypto}
use syrinx.Signing.Payloads
use syrinx.Store.{UserSignature, AdminDecision, AdminRequest}
use syrinx.Admin.State
use syrinx.Admin.Decision
use syrinx.Admin.Open.{request_payload}

owned_by : String → String → Option (String × String × String) → Bool
owned_by user_id peer_server_id none = false
owned_by user_id peer_server_id (some (owner, server_id, fingerprint)) =
    server_id == peer_server_id && canonical_id server_id owner none == user_id

-- requesterKeyBelongsTo, of federation_relay.go
unfoldable pub requester_key_belongs_to : String → String → String → Bool
unfolding owned_by
requester_key_belongs_to key_id user_id peer_server_id =
    owned_by user_id peer_server_id (parse_key_fingerprint key_id)

has_value : {A : Type 0} → Option A → Bool
has_value none = false
has_value (some a) = true

-- The decision of a request that is approved, for the action, and countersigned
unfoldable approved_decision : AdminRequest → String → Result AdminDecision
unfolding has_value
approved_decision req action = do
  refuse_if
      (not (req.action == action)
        || not (req.state == State.executed)
        || not (has_value req.server_signature))
      (failed "not an approved request")
  decision ← or_fail req.decision (failed "not an approved request")
  refuse_if (not (decision.decision == Decision.approve)) (failed "not an approved request")
  ok decision

module _ (crypto : Crypto) (resolve : String → Option String) (peer_server_id : String) where
  -- One turn of the loop over the signers
  unfoldable check_signer : String → UserSignature → Payload → Result (Unit {0})
  check_signer user_id sig payload = do
    refuse_if (not (requester_key_belongs_to sig.key_id user_id peer_server_id))
        (failed "not the user's key")
    armor ← or_fail (resolve sig.key_id) (failed "resolve the key")
    refuse_if (not (crypto.verify_signature payload sig.armor armor)) (failed "signature")

  -- verifyForeignAdminRequest
  unfoldable pub verify_foreign_admin_request : AdminRequest → String → String → Result (Unit {0})
  unfolding approved_decision check_signer
  verify_foreign_admin_request req action target = do
    decision ← approved_decision req action
    refuse_if (not (contains req.targets target)) (failed "not a target of the request")
    refuse_if
        (decision.decider_id == req.requester_id
          && not (is_root_identity req.requester_id peer_server_id))
        (failed "the requester approved their own request")
    check_signer req.requester_id req.requester_signature (request_payload req)
    check_signer decision.decider_id decision.signature (
        Payloads.admin_decision req.id decision.decision decision.decider_id
          decision.signature.key_id req.requester_signature.armor)
