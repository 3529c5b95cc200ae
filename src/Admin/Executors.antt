-- ===== src/Admin/Executors.antt =====
-- adminExecutor of src/backend/admin.go, with the executors that change nothing: invites of
-- admin_invites.go, broadcast and unicast of admin_broadcast.go. What runs after the commit (sockets,
-- mail, metrics, pushes to devices) is left out.
pub mod Suspend
pub mod Profile
pub mod Kick
pub mod Rebind
pub mod Frame
pub mod Untouched
pub mod Others
use syrinx.Common.{
  ℕ, String, Bool, true, false, ◌||◌, ◌==◌, if◌then◌else◌, Option, none, some, Result, ok, err,
  refused,
}
use syrinx.Roles.{role_admin, role_user}
use syrinx.Store.{AdminRequest, Db}
use syrinx.Admin.{Env}
use syrinx.Admin.Action
use syrinx.Admin.Executors.Suspend.{
  validate_suspend, execute_suspend, validate_reinstate, execute_reinstate,
}
use syrinx.Admin.Executors.Profile.{target_role_is, execute_promote, execute_demote}
use syrinx.Admin.Executors.Kick.{execute_kick}
use syrinx.Admin.Executors.Rebind.{validate_rebind, execute_rebind}

-- The `validate` of invitesExecutor
unfoldable pub validate_invites : Env → Result (Unit {0})
validate_invites env = elim env.max_invites_per_user [
  | none ↦ err (refused 409 "no_invite_limit")
  | some n ↦ ok tt
]

unfoldable pub has_executor : String → Bool
has_executor action =
    action == Action.suspend
    || action == Action.reinstate
    || action == Action.kick
    || action == Action.promote
    || action == Action.permissions
    || action == Action.demote
    || action == Action.rebind
    || action == Action.invites
    || action == Action.broadcast
    || action == Action.unicast

-- The `validate` of the action's executor; a nil one passes.
unfoldable pub validate_action : Env → Db → AdminRequest → Result (Unit {0})
unfolding validate_invites
validate_action env db req =
    if req.action == Action.suspend
    then validate_suspend db req
    else if req.action == Action.reinstate
    then validate_reinstate db req
    else if req.action == Action.promote
    then target_role_is db req role_user
    else if req.action == Action.permissions || req.action == Action.demote
    then target_role_is db req role_admin
    else if req.action == Action.rebind
    then validate_rebind env db req
    else if req.action == Action.invites
    then validate_invites env
    else ok tt

-- The `execute` of the action's executor
unfoldable pub execute_action : Env → ℕ → Db → AdminRequest → Result Db
execute_action env now db req =
    if req.action == Action.suspend
    then ok (execute_suspend db req)
    else if req.action == Action.reinstate
    then ok (execute_reinstate db req)
    else if req.action == Action.kick
    then execute_kick env now db req
    else if req.action == Action.promote || req.action == Action.permissions
    then execute_promote env now db req
    else if req.action == Action.demote
    then execute_demote env now db req
    else if req.action == Action.rebind
    then execute_rebind env now db req
    else ok db
