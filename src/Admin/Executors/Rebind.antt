-- ===== src/Admin/Executors/Rebind.antt =====
-- src/backend/admin_rebind.go. Closing the target's sockets and telling peers are left out.
use syrinx.Common.{
  ℕ, String, Bool, true, not, ◌==◌, if◌then◌else◌, none, some, [], ◌∷◌, ◌++◌, any, Result, ok, err,
  refused, failed, refuse_if, or_fail, ◌>>=◌, ◌>>◌, is_empty,
}
use syrinx.Identity.{append_entity}
use syrinx.Signing.Payloads.{reason_lost}
use syrinx.Signing.Payloads
use syrinx.Store.{ServerSignature, AdminRequest, Db}
use syrinx.Store.Queries.{find_user, suspended_by, update_user}
use syrinx.Store.PeerEvents.{enqueue_peer_event, key_revocation}
use syrinx.Admin.{Env, countersign}
use syrinx.Admin.Action
use syrinx.Admin.Rules.{first_target}
use syrinx.Admin.Executors.Kick.{decision_armor}
use syrinx.Admin.Executors.Profile.{revoke_open_invites}

rebound_key : Env → String → String → String
rebound_key env target armor = elim (env.crypto.extract_fingerprint armor) [
  | none ↦ ""
  | some fingerprint ↦ append_entity target fingerprint
]

-- rebindKeyID
unfoldable pub rebind_key_id : Env → AdminRequest → String
unfolding rebound_key
rebind_key_id env req =
    if req.action == Action.rebind
    then elim req.targets [
      | [] ↦ ""
      | t ∷ ts ↦ elim ts [ [] ↦ rebound_key env t req.body | u ∷ us ↦ "" ]
    ]
    else ""

unfoldable pub has_key : Db → String → Bool
has_key db id = any (λ k. k.id == id) db.public_keys

unfoldable pub validate_rebind : Env → Db → AdminRequest → Result (Unit {0})
unfolding has_key
validate_rebind env db req = do
  refuse_if (not (is_empty (suspended_by db (first_target req)))) (refused 409 "target_suspended")
  refuse_if (is_empty (rebind_key_id env req)) (refused 400 "bad_key")
  refuse_if (has_key db (rebind_key_id env req)) (refused 409 "key_exists")

-- The two INSERTs fail on a key that has its row already.
unfoldable pub revoke_lost_key : Db → String → String → String → ServerSignature → Result Db
revoke_lost_key db key_id successor request_id sig =
    if any (λ r. r.key_id == key_id) db.key_revocations
    then err (failed "revoke lost key")
    else ok (record db {
      key_revocations =
          db.key_revocations
          ++ record {
            key_id = key_id;
            reason = reason_lost;
            admin_request_id = request_id;
            successor = successor;
            server_signature = sig;
          }
            ∷ [];
    })

unfoldable pub bind_key : Db → ℕ → String → String → String → String → ServerSignature → Result Db
unfolding has_key
bind_key db now id owner armor predecessor sig =
    if has_key db id
    then err (failed "bind rebound key")
    else ok (record db {
      public_keys =
          db.public_keys
          ++ record {
            id = id;
            owner = owner;
            armor = armor;
            created_at = now;
            predecessor_id = predecessor;
            restricted = true;
            server_signature = some sig;
          }
            ∷ [];
    })

-- The successor is set here with the revocation, in the same transaction; a NULL key does not scan.
unfoldable pub execute_rebind : Env → ℕ → Db → AdminRequest → Result Db
unfolding revoke_lost_key bind_key
execute_rebind env now db req = do
  u ← or_fail (find_user db (first_target req)) (failed "load active key")
  refuse_if (is_empty u.active_key_id) (failed "load active key")
  armor ← decision_armor req.decision
  revocation_sig ←
      countersign env
        (Payloads.admin_revocation_server (first_target req) u.active_key_id req.id
          req.requester_signature.armor armor env.server_id env.fingerprint now)
        now
  revoked ← revoke_lost_key db u.active_key_id (rebind_key_id env req) req.id revocation_sig
  key_sig ←
      countersign env
        (Payloads.public_key env.server_id (first_target req) (rebind_key_id env req)
          env.fingerprint req.body now)
        now
  bound ←
      bind_key (enqueue_peer_event revoked key_revocation u.active_key_id) now
        (rebind_key_id env req) (first_target req) req.body u.active_key_id key_sig
  ok (
      revoke_open_invites now (first_target req) (
        update_user bound (first_target req)
          (λ v. record v { active_key_id = rebind_key_id env req })))
