-- ===== src/Admin/Executors/Suspend.antt =====
-- src/backend/admin_suspend.go. Closing the targets' sockets is left out.
use syrinx.Common.{String, not, List, [], ◌∷◌, Result, refused, refuse_if, each, is_empty}
use syrinx.Store.{AdminRequest, Db}
use syrinx.Store.Queries.{suspended_by, update_user}
use syrinx.Admin.Rules.{remaining_targets}

unfoldable pub set_suspended_by : Db → String → List String → Db
set_suspended_by db request_id [] = db
set_suspended_by db request_id (t ∷ ts) =
    set_suspended_by (update_user db t (λ u. record u { suspended_by = request_id })) request_id ts

unfoldable pub validate_suspend : Db → AdminRequest → Result (Unit {0})
validate_suspend db req =
    each (λ t. refuse_if (not (is_empty (suspended_by db t))) (refused 409 "already_suspended"))
      (remaining_targets req)

unfoldable pub execute_suspend : Db → AdminRequest → Db
unfolding set_suspended_by
execute_suspend db req = set_suspended_by db req.id (remaining_targets req)

unfoldable pub validate_reinstate : Db → AdminRequest → Result (Unit {0})
validate_reinstate db req =
    each (λ t. refuse_if (is_empty (suspended_by db t)) (refused 409 "not_suspended"))
      (remaining_targets req)

unfoldable pub execute_reinstate : Db → AdminRequest → Db
unfolding set_suspended_by
execute_reinstate db req = set_suspended_by db "" (remaining_targets req)
