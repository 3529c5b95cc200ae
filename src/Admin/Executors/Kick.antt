-- ===== src/Admin/Executors/Kick.antt =====
-- kickExecutor of src/backend/admin_kick.go and storeAccountRemovalTx of src/backend/services.go.
-- Pushing the removal to devices and peers and counting flags are left out.
use syrinx.Common.{
  ℕ, ◌-◌, String, Bool, true, false, not, ◌&&◌, ◌==◌, if◌then◌else◌, Option, none, some, List, [],
  ◌∷◌, ◌++◌, find, Result, ok, err, failed, refuse_if, or_fail, ◌>>=◌, ◌>>◌, nat_eq, ltb,
}
use syrinx.Signing.Payloads
use syrinx.Store.{UserSignature, User, AccountRemoval, AdminDecision, AdminRequest, Db}
use syrinx.Store.Queries.{find_user, update_user}
use syrinx.Store.PeerEvents.{enqueue_peer_event, account_removal}
use syrinx.Store.Flags.{settle_account_removal}
use syrinx.Admin.{Env, countersign}
use syrinx.Admin.Rules.{remaining_targets}
use syrinx.Admin.Executors.Profile.{revoke_open_invites}

abbrev pub max_account_note_len : ℕ
max_account_note_len = 140

same_user_signature : Option UserSignature → Option UserSignature → Bool
same_user_signature none none = true
same_user_signature none (some t) = false
same_user_signature (some s) none = false
same_user_signature (some s) (some t) = s.key_id == t.key_id && s.armor == t.armor

-- sameAccountRemoval
unfoldable pub same_account_removal : AccountRemoval → AccountRemoval → Result (Unit {0})
unfolding same_user_signature
same_account_removal existing cert =
    refuse_if
      (not (
        existing.note == cert.note
        && same_user_signature existing.user_signature cert.user_signature
        && existing.admin_request_id == cert.admin_request_id
        && existing.admin_authorization == cert.admin_authorization
        && existing.server_signature.armor == cert.server_signature.armor
        && existing.server_signature.key_id == cert.server_signature.key_id
        && nat_eq existing.server_signature.signed_at cert.server_signature.signed_at))
      (failed "removal conflict")

unfoldable pub clear_profile : User → User
clear_profile u = record u { username = none; user_signature = none; server_signature = none }

-- The new row, what it settles and announces, and the freed username.
unfoldable pub remove_account : Db → AccountRemoval → Db
unfolding clear_profile
remove_account db cert =
    let stored = record db { account_removals = db.account_removals ++ cert ∷ [] } in
    let owed =
      enqueue_peer_event (settle_account_removal stored cert.user_id) account_removal
        cert.user_id in
    let cleared = update_user owed cert.user_id clear_profile in
    record cleared { active_users = cleared.active_users - 1 }

-- storeAccountRemovalTx. NULL signature ids do not scan.
unfoldable pub store_account_removal : Env → Db → AccountRemoval → Result Db
unfolding remove_account same_account_removal
store_account_removal env db cert =
    if ltb max_account_note_len (env.count_characters cert.note)
    then err (failed "note exceeds 140 characters")
    else elim (find (λ r. r.user_id == cert.user_id) db.account_removals) [
      | some existing ↦ same_account_removal existing cert >> ok db
      | none ↦ or_fail (find_user db cert.user_id) (failed "load profile signature ids") >>= λ u.
          or_fail u.user_signature (failed "load profile signature ids") >>= λ us.
          or_fail u.server_signature (failed "load profile signature ids") >>= λ ss.
          ok (remove_account db cert)
    ]

unfoldable pub decision_armor : Option AdminDecision → Result String
decision_armor none = err (failed "nil decision")
decision_armor (some d) = ok d.signature.armor

unfoldable pub kick_one : Env → ℕ → AdminRequest → String → Db → Result Db
unfolding decision_armor
kick_one env now req target db = do
  armor ← decision_armor req.decision
  sig ←
      countersign env
        (Payloads.account_kick_server env.server_id target req.id req.requester_signature.armor
          armor env.fingerprint now)
        now
  let cert : AccountRemoval = record {
    user_id = target;
    note = "";
    user_signature = none;
    admin_request_id = req.id;
    admin_authorization = "";
    server_signature = sig;
  }
  after ← store_account_removal env db cert
  ok (revoke_open_invites now target after)

unfoldable pub kick_all : Env → ℕ → AdminRequest → List String → Db → Result Db
unfolding kick_one
kick_all env now req [] db = ok db
kick_all env now req (t ∷ ts) db =
    kick_one env now req t db >>= λ after. kick_all env now req ts after

unfoldable pub execute_kick : Env → ℕ → Db → AdminRequest → Result Db
unfolding kick_all
execute_kick env now db req = kick_all env now req (remaining_targets req) db
