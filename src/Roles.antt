-- ===== src/Roles.antt =====
-- src/backend/roles.go: local role tiers. Roles are texts, as the users table keeps them.
pub mod Laws
use syrinx.Common.{
  String, Bool, true, false, not, ◌&&◌, ◌||◌, ◌==◌, if◌then◌else◌, Result, ok, err, failed,
  trim_space, refuse_if, ◌>>=◌, ◌>>◌, none, refused,
}
use syrinx.Identity.{canonical_id}

abbrev pub role_root : String
role_root = "root"

abbrev pub role_admin : String
role_admin = "admin"

abbrev pub role_user : String
role_user = "user"

-- constants.go
abbrev pub root_user_id : String
root_user_id = "1"

unfoldable pub is_admin : String → Bool
is_admin role = role == role_root || role == role_admin

-- The id may be bare or in its canonical form.
unfoldable pub is_root_identity : String → String → Bool
is_root_identity user_id server_id =
    user_id == canonical_id server_id root_user_id none || user_id == root_user_id

unfoldable pub is_root : String → String → String → Bool
is_root user_id role server_id = is_root_identity user_id server_id && role == role_root

unfoldable pub role_for_signup : String → String → String
role_for_signup user_id server_id =
    if is_root_identity user_id server_id then role_root else role_user

unfoldable pub role_from_invite_grant : String → String
role_from_invite_grant granted_role = if granted_role == role_admin then role_admin else role_user

unfoldable pub signup_role : String → String → Bool → String → String
unfolding role_from_invite_grant
signup_role user_id invite_granted_role has_invite server_id =
    if is_root_identity user_id server_id
    then role_root
    else if has_invite
    then role_from_invite_grant invite_granted_role
    else role_user

unfoldable pub require_admin : String → Result (Unit {0})
require_admin role = refuse_if (not (is_admin role)) (failed "admin required")

abbrev is_known_role : String → Bool
is_known_role role = role == role_root || role == role_admin || role == role_user

-- Every failure is `errInvalidRole`, wrapped.
abbrev invalid_role : Result (Unit {0})
invalid_role = err (failed "invalid role")

-- The switch on the trimmed role, and the test against the root identity.
check_tier : String → Bool → Result (Unit {0})
check_tier role root_match =
    if not (is_known_role role)
    then invalid_role
    else if root_match
    then (if not (role == role_root) then invalid_role else ok tt)
    else if role == role_root
    then invalid_role
    else ok tt

unfoldable pub validate_profile_role : String → String → String → Result (Unit {0})
unfolding check_tier
validate_profile_role user_id raw server_id =
    check_tier (trim_space raw) (is_root_identity user_id server_id)
