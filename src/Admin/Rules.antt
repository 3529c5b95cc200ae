-- ===== src/Admin/Rules.antt =====
-- src/backend/admin.go: who may ask for what, and who may decide on it.
pub mod Decider
pub mod States
use syrinx.Common.{
  ℕ, String, Bool, true, false, not, ◌&&◌, ◌||◌, ◌==◌, if◌then◌else◌, Option, none, some, List, [],
  ◌∷◌, ◌++◌, Result, ok, err, refused, refuse_if, ◌>>=◌, ◌>>◌, each, any, select, contains, length,
  nat_eq, leb,
}
use syrinx.Roles.{role_admin, is_admin, is_root}
use syrinx.Permissions.Perm
use syrinx.Permissions.{parse_permission_set}
use syrinx.Store.{AdminRequest, Db}
use syrinx.Store.Queries.{user_role, user_permissions, invited_by}
use syrinx.Admin.Action
use syrinx.Admin.State
use syrinx.Admin.Decision

-- A Go map literal: "" for a missing key.
unfoldable pub lookup : String → List (String × String) → String
lookup k [] = ""
lookup k ((j, v) ∷ m) = if j == k then v else lookup k m

-- adminActionPermission
abbrev pub action_permissions : List (String × String)
action_permissions =
    (Action.suspend, Perm.user_suspend)
    ∷ (Action.reinstate, Perm.user_suspend)
    ∷ (Action.kick, Perm.user_kick)
    ∷ (Action.promote, Perm.admin_create)
    ∷ (Action.demote, Perm.admin_demote)
    ∷ (Action.rebind, Perm.user_rebind)
    ∷ (Action.invites, Perm.user_invites)
    ∷ (Action.broadcast, Perm.message_broadcast)
    ∷ (Action.unicast, Perm.message_unicast)
    ∷ []

abbrev pub mail_actions : List String
mail_actions = Action.broadcast ∷ Action.unicast ∷ []

unfoldable pub hidden_admin_actions : List String → List String
unfolding lookup
hidden_admin_actions perms =
    select (λ a. not (contains perms (lookup a action_permissions))) mail_actions

unfoldable pub remaining_targets : AdminRequest → List String
remaining_targets req = select (λ t. not (contains req.dropped t)) req.targets

unfoldable pub decision_for_state : String → String
decision_for_state state =
    if state == State.executed
    then Decision.approve
    else if state == State.rejected
    then Decision.reject
    else if state == State.withdrawn
    then Decision.withdraw
    else ""

unfoldable pub state_for_decision : String → String
state_for_decision decision =
    if decision == Decision.approve
    then State.executed
    else if decision == Decision.reject
    then State.rejected
    else if decision == Decision.withdraw
    then State.withdrawn
    else ""

unfoldable pub target_count_fits : String → ℕ → Bool
target_count_fits action n =
    if action == Action.broadcast
    then nat_eq n 0
    else if contains
        (Action.unicast ∷ Action.promote ∷ Action.demote ∷ Action.permissions ∷ Action.rebind
          ∷ Action.invites ∷ [])
        action
    then nat_eq n 1
    else leb 1 n

-- adminActionNeedsOutsideApprover
unfoldable pub needs_outside_approver : String → Bool
needs_outside_approver action =
    contains (Action.kick ∷ Action.promote ∷ Action.demote ∷ Action.permissions ∷ []) action

unfoldable pub granted_permissions : AdminRequest → Result (List String)
granted_permissions req =
    if not (req.action == Action.promote) && not (req.action == Action.permissions)
    then ok []
    else parse_permission_set req.body

-- An error of parsePermissionSet, as the handlers answer it.
unfoldable pub granted_or_refuse : AdminRequest → Result (List String)
unfolding granted_permissions
granted_or_refuse req = elim (granted_permissions req) [
  | ok perms ↦ ok perms
  | err e ↦ err (refused 400 "bad_permissions")
]

added : List String → List String → List String
added current next = if any (λ p. not (contains current p)) next then Perm.admin_create ∷ [] else []

removed : List String → List String → List String
removed current next =
    if any (λ p. not (contains next p)) current then Perm.admin_demote ∷ [] else []

required_or_unchanged : List String → Result (List String)
required_or_unchanged [] = err (refused 409 "permissions_unchanged")
required_or_unchanged (p ∷ ps) = ok (p ∷ ps)

-- `req.Targets[0]`, which panics without a target.
unfoldable pub first_target : AdminRequest → String
first_target req = elim req.targets [ [] ↦ "" | t ∷ ts ↦ t ]

-- requiredPermissionsQ
unfoldable pub required_permissions : Db → String → AdminRequest → Result (List String)
unfolding lookup granted_or_refuse added removed required_or_unchanged first_target
required_permissions db server_id req =
    if not (req.action == Action.permissions)
    then ok (lookup req.action action_permissions ∷ [])
    else (granted_or_refuse req >>= λ next.
        let target = first_target req in
        let current = user_permissions db server_id target (user_role db target) in
        required_or_unchanged (added current next ++ removed current next))

-- checkActorPermissionsQ
unfoldable pub check_actor_permissions :
    Db → String → AdminRequest → String → String → Result (Unit {0})
check_actor_permissions db server_id req actor_id actor_role = do
  required ← required_permissions db server_id req
  granted ← granted_or_refuse req
  let held = user_permissions db server_id actor_id actor_role
  each (λ p. refuse_if (not (contains held p)) (refused 403 "missing_permission"))
      (required ++ granted)

-- checkDeciderQ
unfoldable pub check_decider : Db → String → AdminRequest → String → Result (Unit {0})
check_decider db server_id req decider_id =
    let role = user_role db decider_id in
    let decider_is_root = is_root decider_id role server_id in
    do
      refuse_if (not (is_admin role)) (refused 403 "not_admin")
      refuse_if (decider_id == req.requester_id && not decider_is_root)
          (refused 403 "self_decision")
      refuse_if (contains req.targets decider_id) (refused 403 "target_decision")
      refuse_if (needs_outside_approver req.action && invited_by db req.requester_id decider_id)
          (refused 403 "invitee_decision")
      check_actor_permissions db server_id req decider_id role
      if decider_is_root
          then ok tt
          else each (λ t. refuse_if (user_role db t == role_admin) (refused 403 "root_required"))
              (remaining_targets req)
