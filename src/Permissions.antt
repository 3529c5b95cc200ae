-- ===== src/Permissions.antt =====
-- src/backend/admin.go: permissions, and the one spelling of a permission set.
pub mod Perm
pub mod Spelling
use syrinx.Common.{
  Char, String, Bool, true, false, not, ◌&&◌, ◌||◌, ◌==◌, if◌then◌else◌, Option, none, some, List,
  [], ◌∷◌, map, Result, ok, err, failed, ◌>>=◌, ◌>>◌, refuse_if, contains, find, is_empty, text_lt,
  sort, compact, split, join,
}

abbrev pub admin_permissions : List String
admin_permissions =
    Perm.admin_create ∷ Perm.admin_demote ∷ Perm.user_kick ∷ Perm.user_suspend ∷ Perm.user_rebind
    ∷ Perm.user_invites ∷ Perm.message_unicast ∷ Perm.message_broadcast ∷ Perm.mesh_invite
    ∷ Perm.mesh_connect ∷ Perm.mesh_disconnect ∷ []

abbrev pub comma : Char
comma = ","

-- `i > 0 && perms[i-1] >= p`
out_of_order : Option String → String → Bool
out_of_order none p = false
out_of_order (some previous) p = not (text_lt previous p)

-- The loop of `parsePermissionSet`, which carries the entry before.
check_perms : Option String → List String → Result (Unit {0})
unfolding out_of_order
check_perms previous [] = ok tt
check_perms previous (p ∷ ps) =
    let rest = check_perms (some p) ps in
    if not (contains admin_permissions p)
    then err (failed "unknown permission")
    else if out_of_order previous p
    then err (failed "permissions must be sorted and unique")
    else rest

unfoldable pub parse_permission_set : String → Result (List String)
unfolding check_perms
parse_permission_set body =
    if is_empty body then ok [] else (check_perms none (split comma body) >> ok (split comma body))

unfoldable pub format_permission_set : List String → String
format_permission_set perms = join comma (compact (sort perms))
