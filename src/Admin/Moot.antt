-- ===== src/Admin/Moot.antt =====
-- dropFromAdminRequests and closeIfMoot of src/backend/admin.go: what a removed user leaves open.
use syrinx.Common.{
  ℕ, String, Bool, true, false, not, ◌&&◌, ◌||◌, ◌==◌, if◌then◌else◌, Option, none, some, List, [],
  ◌∷◌, map, select, update, Result, ok, err, ◌>>=◌, contains, sort,
}
use syrinx.Signing.Payloads
use syrinx.Store.{ServerSignature, AdminRequest, Db}
use syrinx.Store.Queries.{get_admin_request}
use syrinx.Admin.{Env, countersign, opened_before_recovery}
use syrinx.Admin.State
use syrinx.Admin.Rules.{remaining_targets}
use syrinx.Admin.Decide.{close_admin_request}

unfoldable pub has_target : String → AdminRequest → Bool
has_target user_id req =
    req.state == State.pending && contains req.targets user_id && not (contains req.dropped user_id)

unfoldable pub drop_target : String → AdminRequest → AdminRequest
drop_target user_id req = record req { dropped = sort (user_id ∷ req.dropped) }

-- The UPDATE of dropFromAdminRequests, and the ids it returns
unfoldable pub drop_targets : Db → String → Db × List String
unfolding has_target drop_target
drop_targets db user_id = (
  record db {
    admin_requests = update (has_target user_id) (drop_target user_id) db.admin_requests;
  },
  map (λ r. r.id) (select (has_target user_id) db.admin_requests),
)

unfoldable pub no_targets_left : AdminRequest → Bool
no_targets_left req = elim (remaining_targets req) [ [] ↦ true | u ∷ us ↦ false ]

unfoldable pub is_moot : AdminRequest → Bool
unfolding no_targets_left
is_moot req = elim req.targets [ [] ↦ false | t ∷ ts ↦ no_targets_left req ]

-- closeIfMoot up to its transaction: the signature that closes the request, if it is moot
unfoldable pub moot_signature : Env → ℕ → Db → String → Result (Option ServerSignature)
unfolding is_moot
moot_signature env now db request_id = elim (get_admin_request db request_id) [
  | none ↦ ok none
  | some req ↦
      if not (req.state == State.pending) || not (is_moot req) || opened_before_recovery env db req
      then ok none
      else (countersign env
            (Payloads.admin_request_server req.id State.moot req.requester_signature.armor ""
              env.server_id env.fingerprint now)
            now
          >>= λ sig. ok (some sig))
]

-- closeIfMoot's transaction, on the row as it is read again under its lock
unfoldable pub commit_moot : Db → String → ServerSignature → Result Db
unfolding no_targets_left
commit_moot db request_id sig = elim (get_admin_request db request_id) [
  | none ↦ ok db
  | some locked ↦
      if not (locked.state == State.pending) || not (no_targets_left locked)
      then ok db
      else close_admin_request db locked State.moot none sig
]

unfoldable pub commit_if : Db → String → Option ServerSignature → Result Db
unfolding commit_moot
commit_if db request_id none = ok db
commit_if db request_id (some sig) = commit_moot db request_id sig

-- closeIfMoot. An error leaves the request for a later call.
unfoldable pub close_if_moot : Env → ℕ → Db → String → Result Db
unfolding moot_signature commit_if
close_if_moot env now db request_id =
    moot_signature env now db request_id >>= commit_if db request_id

unfoldable pub or_unchanged : Db → Result Db → Db
or_unchanged db (ok after) = after
or_unchanged db (err e) = db

unfoldable pub close_all : Env → ℕ → Db → List String → Db
unfolding or_unchanged
close_all env now db [] = db
close_all env now db (id ∷ ids) =
    close_all env now (or_unchanged db (close_if_moot env now db id)) ids

-- dropFromAdminRequests, which logs errors and goes on
unfoldable pub drop_from_admin_requests : Env → ℕ → Db → String → Db
unfolding close_all
drop_from_admin_requests env now db user_id =
    let dropped = drop_targets db user_id in close_all env now dropped.0 dropped.1
