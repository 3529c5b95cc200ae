-- ===== src/Admin/Executors/Profile.antt =====
-- src/backend/admin_promote.go: roles and permissions of admins. Announcing the profile and telling
-- the other admins are left out.
use syrinx.Common.{
  ℕ, String, Bool, true, false, not, ◌&&◌, ◌==◌, Option, none, some, List, [], ◌∷◌, ◌++◌, map, find,
  select, update, Result, ok, refused, failed, refuse_if, or_fail, each, ◌>>=◌, ◌>>◌, join,
}
use syrinx.Roles.{role_admin, role_user}
use syrinx.Permissions.{comma, parse_permission_set}
use syrinx.Signing.Payloads
use syrinx.Store.{ServerSignature, User, Invite, AdminRequest, Db}
use syrinx.Store.Queries.{find_user, user_role, update_user}
use syrinx.Admin.{Env, countersign}
use syrinx.Admin.Rules.{remaining_targets, granted_or_refuse, first_target}

-- setUserPermissionsTx
unfoldable pub set_user_permissions : Db → String → List String → Db
set_user_permissions db user_id perms = record db {
  user_permissions =
      select (λ r. not (r.0 == user_id)) db.user_permissions ++ map (λ p. (user_id, p)) perms;
}

-- validateProfilePermissions
unfoldable pub validate_profile_permissions : String → List String → Result (Unit {0})
validate_profile_permissions role [] = ok tt
validate_profile_permissions role (p ∷ ps) = do
  refuse_if (not (role == role_admin)) (failed "only an admin's profile carries permissions")
  perms ← parse_permission_set (join comma (p ∷ ps))
  ok tt

collision_name : Db → String → Option String
collision_name db id = elim (find (λ r. r.0 == id) db.username_collisions) [
  | none ↦ none
  | some r ↦ some r.1
]

-- COALESCE(u.username, uc.username)
unfoldable pub profile_name : Db → User → Option String
unfolding collision_name
profile_name db u = elim u.username [ none ↦ collision_name db u.id | some name ↦ some name ]

unfoldable pub set_profile : String → List String → ServerSignature → String → Db → Db
set_profile role perms sig user_id db =
    set_user_permissions
      (update_user db user_id (λ u. record u { role = role; server_signature = some sig })) user_id
      perms

-- recountersignProfileTx. The query finds no row without a user signature; a NULL name does not scan.
unfoldable pub recountersign_profile : Env → ℕ → Db → String → String → List String → Result Db
unfolding profile_name set_profile
recountersign_profile env now db user_id role perms = do
  u ← or_fail (find_user db user_id) (failed "load profile")
  us ← or_fail u.user_signature (failed "load profile")
  username ← or_fail (profile_name db u) (failed "load profile")
  sig ←
      countersign env
        (Payloads.profile user_id username us.key_id env.server_id env.fingerprint us.armor
          u.invite_id role perms u.bio u.created_at now)
        now
  ok (set_profile role perms sig user_id db)

-- targetRoleIs
unfoldable pub target_role_is : Db → AdminRequest → String → Result (Unit {0})
target_role_is db req role =
    each (λ t. refuse_if (not (user_role db t == role)) (refused 409 "target_role"))
      (remaining_targets req)

-- The `execute` of promoteExecutor and permissionsExecutor, which are the same.
unfoldable pub execute_promote : Env → ℕ → Db → AdminRequest → Result Db
execute_promote env now db req = do
  perms ← granted_or_refuse req
  recountersign_profile env now db (first_target req) role_admin perms

unfoldable pub revoke_where : ℕ → (Invite → Bool) → Db → Db
revoke_where now p db = record db {
  invites = update p (λ i. record i { revoked_at = some now }) db.invites;
}

is_unset : Option ℕ → Bool
is_unset none = true
is_unset (some t) = false

-- claimed_at IS NULL AND revoked_at IS NULL
unfoldable is_open_invite_of : String → Invite → Bool
unfolding is_unset
is_open_invite_of user_id i =
    i.created_by == user_id && is_unset i.claimed_at && is_unset i.revoked_at

unfoldable pub revoke_open_invites : ℕ → String → Db → Db
unfolding revoke_where is_open_invite_of
revoke_open_invites now user_id db = revoke_where now (is_open_invite_of user_id) db

unfoldable pub execute_demote : Env → ℕ → Db → AdminRequest → Result Db
unfolding revoke_where is_open_invite_of
execute_demote env now db req = do
  after ← recountersign_profile env now db (first_target req) role_user []
  ok (
      revoke_where now (λ i. is_open_invite_of (first_target req) i && i.granted_role == role_admin)
        after)
