-- ===== src/Admin/Validate.antt =====
-- validateNewAdminRequest of src/backend/admin.go and parseInviteGrant of admin_invites.go: what a new
-- request must meet, but for its signature.
pub mod Grant
use syrinx.Common.{
  ℕ, ◌-◌, String, Bool, false, not, ◌&&◌, ◌||◌, ◌==◌, if◌then◌else◌, Option, none, some, map,
  Result, ok, err, refused, failed, refuse_if, or_fail, each, ◌>>=◌, ◌>>◌, contains, length, nat_eq,
  ltb, is_empty, trim_space, is_sorted, compact, read_decimal, print_decimal,
}
use syrinx.Identity.{parse_identity_id}
use syrinx.Roles.{is_admin, is_root_identity}
use syrinx.Permissions.{parse_permission_set}
use syrinx.Store.{AdminRequest, Db}
use syrinx.Store.Queries.{user_role, has_account_removal}
use syrinx.Admin.{Env, long_text_fits}
use syrinx.Admin.Action
use syrinx.Admin.Rules.{action_permissions, target_count_fits, check_actor_permissions}
use syrinx.Admin.Executors.{has_executor, validate_action}

-- In seconds: five minutes.
abbrev pub admin_request_clock_skew : ℕ
admin_request_clock_skew = 300

abbrev pub max_invite_grant : ℕ
max_invite_grant = 100

-- parseInviteGrant. Itoa never spells a "+", and what it spells with a "-" is below 1.
unfoldable pub parse_invite_grant : String → Result ℕ
parse_invite_grant body = do
  n ← or_fail (read_decimal 0x8000000000000000 body) (failed "isn't a whole number")
  refuse_if (not (print_decimal n == body)) (failed "isn't a whole number")
  refuse_if (ltb n 1 || ltb max_invite_grant n) (failed "must be from 1 to 100")
  ok n

-- An error of a parser, as the handler answers it.
refuse_failed {ℓ} : {A : Type ℓ} → String → Result A → Result (Unit {0})
refuse_failed reason (ok a) = ok tt
refuse_failed reason (err e) = err (refused 400 reason)

unfoldable pub is_local : String → Option (String × String) → Bool
is_local server_id none = false
is_local server_id (some (user_id, target_server_id)) = target_server_id == server_id

-- One turn of the loop over the targets
unfoldable pub check_target : Env → Db → String → Result (Unit {0})
unfolding is_local
check_target env db target = do
  refuse_if (not (is_local env.server_id (parse_identity_id target))) (refused 400 "foreign_target")
  refuse_if (is_root_identity target env.server_id) (refused 403 "root_target")
  refuse_if (is_empty (user_role db target)) (refused 404 "target_not_found")
  refuse_if (has_account_removal db target) (refused 410 "target_removed")

unfoldable pub check_reason : Env → AdminRequest → Result (Unit {0})
check_reason env req =
    if req.action == Action.broadcast || req.action == Action.unicast
    then refuse_if (not (is_empty req.reason)) (refused 400 "bad_reason")
    else refuse_if (is_empty (trim_space req.reason) || not (long_text_fits env req.reason))
        (refused 400 "bad_reason")

unfoldable pub check_body : Env → AdminRequest → Result (Unit {0})
unfolding refuse_failed
check_body env req =
    if req.action == Action.broadcast || req.action == Action.unicast
    then refuse_if (is_empty (trim_space req.body) || not (long_text_fits env req.body))
        (refused 400 "bad_message")
    else if req.action == Action.promote || req.action == Action.permissions
    then refuse_failed "bad_permissions" (parse_permission_set req.body)
    else if req.action == Action.rebind
    then refuse_if (is_empty (trim_space req.body)) (refused 400 "bad_body")
    else if req.action == Action.invites
    then refuse_failed "bad_body" (parse_invite_grant req.body)
    else refuse_if (not (is_empty req.body)) (refused 400 "bad_body")

-- validateNewAdminRequest
unfoldable pub validate_new_admin_request : Env → ℕ → Db → AdminRequest → String → Result (Unit {0})
validate_new_admin_request env now db req requester_role = do
  refuse_if (not (env.valid_uuid req.id)) (refused 400 "bad_id")
  refuse_if
      (not (contains (map (λ r. r.0) action_permissions) req.action)
        && not (req.action == Action.permissions))
      (refused 400 "unknown_action")
  refuse_if
      (ltb admin_request_clock_skew (now - req.created_at)
        || ltb admin_request_clock_skew (req.created_at - now))
      (refused 400 "clock_skew")
  refuse_if
      (not (is_sorted req.targets)
        || not (nat_eq (length (compact req.targets)) (length req.targets)))
      (refused 400 "bad_targets")
  refuse_if (not (target_count_fits req.action (length req.targets))) (refused 400 "bad_targets")
  each (check_target env db) req.targets
  check_reason env req
  check_body env req
  refuse_if (not (is_admin requester_role)) (refused 403 "not_admin")
  check_actor_permissions db env.server_id req req.requester_id requester_role
  refuse_if (not (has_executor req.action)) (refused 501 "unavailable")
  validate_action env db req
