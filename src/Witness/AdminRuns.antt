-- ===== src/Witness/AdminRuns.antt =====
-- A suspension: opened by an admin, approved by root.
use syrinx.Common.{
  String, eq_iff, is_empty, false, ◌↔◌, ◌≡◌, ◌≢◌, refl, inl, none, some, [], ◌∷◌, ok, split_last,
  trim_space, sort, compact, is_sorted, arith,
}
use syrinx.Admin.State
use syrinx.Admin.Steps.{opened, decided, dropped, Steps, done, more, Inv}
use syrinx.Admin.Steps.Invariant.{Steps-Inv, Steps-final}
use syrinx.Admin.Moot.{drop_from_admin_requests}
use syrinx.Admin.Decide.Guard.{Committed, commit_decision-Committed}
use syrinx.Admin.Decide.Prepare.{Genuine, prepare_decision_iff}
use syrinx.Admin.Rules.Decider.{Eligible, check_decider_iff}
use syrinx.Admin.Executors.Others.{execute_action-Keeps}
use syrinx.Admin.Executors.Frame.{Same, execute_action-Same}
use syrinx.Ledger.Chain.{Appended, append_ledger_entry-Appended}
use syrinx.Admin.Open.Opened.{Opened}
use syrinx.Witness.Data.{
  env, start, waiting, suspended, finished, closed_request, entry, prepared, message, request,
  approval,
}
use syrinx.Identity.{canonical_id, parse_identity_id, parse_key_fingerprint, author_of}
use syrinx.Roles.{is_admin, is_root_identity, is_root}
use syrinx.Signing.{canonical_json}
use syrinx.Signing.Payloads.{
  admin_request, admin_decision, admin_request_opened, admin_request_server, ledger_entry,
}
use syrinx.Store.Queries.{
  find_user, user_role, permission_rows, user_permissions, invited_by, invite_creator,
  has_account_removal, suspended_by, get_admin_request, get_public_key, update_user,
}
use syrinx.Admin.{countersign, long_text_fits, recovering, opened_before_recovery}
use syrinx.Admin.Rules.{
  lookup, remaining_targets, decision_for_state, state_for_decision, target_count_fits,
  needs_outside_approver, granted_permissions, granted_or_refuse, first_target,
  required_permissions, check_actor_permissions, check_decider,
}
use syrinx.Admin.Executors.Suspend.{set_suspended_by, validate_suspend, execute_suspend}
use syrinx.Admin.Executors.Rebind.{rebind_key_id}
use syrinx.Admin.Executors.{has_executor, validate_action, execute_action}
use syrinx.Admin.Validate.{check_target, check_reason, check_body, validate_new_admin_request}
use syrinx.Admin.Open.{
  admin_caller, caller_signing_key, read_message, insert_admin_request, request_payload,
  open_admin_request,
}
use syrinx.Admin.Decide.{prepare_decision, closed, close_admin_request, commit_decision}
use syrinx.Ledger.{append_ledger, ledger_approved_entry, append_ledger_entry, last_entry}

open_run : open_admin_request env 100 start "a@s" message ≡ ok (waiting, request)
unfolding canonical_id parse_identity_id parse_key_fingerprint author_of is_admin is_root_identity
    is_root canonical_json admin_request admin_decision admin_request_opened admin_request_server
    ledger_entry find_user user_role permission_rows user_permissions invited_by invite_creator
    has_account_removal suspended_by get_admin_request get_public_key update_user countersign
    long_text_fits recovering opened_before_recovery lookup remaining_targets decision_for_state
    state_for_decision target_count_fits needs_outside_approver granted_permissions
    granted_or_refuse first_target required_permissions check_actor_permissions check_decider
    set_suspended_by validate_suspend execute_suspend rebind_key_id has_executor validate_action
    execute_action check_target check_reason check_body validate_new_admin_request admin_caller
    caller_signing_key read_message insert_admin_request request_payload open_admin_request
    prepare_decision closed close_admin_request commit_decision append_ledger ledger_approved_entry
    append_ledger_entry last_entry split_last trim_space sort compact is_sorted
open_run = refl

prepare_run : prepare_decision env 101 waiting "1@s" "r1" approval ≡ ok prepared
unfolding canonical_id parse_identity_id parse_key_fingerprint author_of is_admin is_root_identity
    is_root canonical_json admin_request admin_decision admin_request_opened admin_request_server
    ledger_entry find_user user_role permission_rows user_permissions invited_by invite_creator
    has_account_removal suspended_by get_admin_request get_public_key update_user countersign
    long_text_fits recovering opened_before_recovery lookup remaining_targets decision_for_state
    state_for_decision target_count_fits needs_outside_approver granted_permissions
    granted_or_refuse first_target required_permissions check_actor_permissions check_decider
    set_suspended_by validate_suspend execute_suspend rebind_key_id has_executor validate_action
    execute_action check_target check_reason check_body validate_new_admin_request admin_caller
    caller_signing_key read_message insert_admin_request request_payload open_admin_request
    prepare_decision closed close_admin_request commit_decision append_ledger ledger_approved_entry
    append_ledger_entry last_entry split_last trim_space sort compact is_sorted
prepare_run = refl

commit_run : commit_decision env 101 waiting prepared ≡ ok finished
unfolding canonical_id parse_identity_id parse_key_fingerprint author_of is_admin is_root_identity
    is_root canonical_json admin_request admin_decision admin_request_opened admin_request_server
    ledger_entry find_user user_role permission_rows user_permissions invited_by invite_creator
    has_account_removal suspended_by get_admin_request get_public_key update_user countersign
    long_text_fits recovering opened_before_recovery lookup remaining_targets decision_for_state
    state_for_decision target_count_fits needs_outside_approver granted_permissions
    granted_or_refuse first_target required_permissions check_actor_permissions check_decider
    set_suspended_by validate_suspend execute_suspend rebind_key_id has_executor validate_action
    execute_action check_target check_reason check_body validate_new_admin_request admin_caller
    caller_signing_key read_message insert_admin_request request_payload open_admin_request
    prepare_decision closed close_admin_request commit_decision append_ledger ledger_approved_entry
    append_ledger_entry last_entry split_last trim_space sort compact is_sorted
commit_run = refl

start-Inv : Inv env start
start-Inv = record { distinct = tt; sound = tt; chain = omega arith }

run : Steps env start finished
run = more start waiting finished (opened 100 start waiting "a@s" message request open_run) (
    more waiting finished finished
      (decided 101 101 waiting waiting finished "1@s" "r1" approval prepared prepare_run commit_run)
      (done finished))

waiting-Inv : Inv env waiting
waiting-Inv = record {
  distinct = (tt, tt);
  sound = (inl (refl, refl, refl), tt);
  chain = omega arith;
}

executed_not_pending : State.executed ≢ State.pending
executed_not_pending e = ground (arith, (eq_iff State.executed State.pending).1 e)

found_closed : get_admin_request finished "r1" ≡ some closed_request
unfolding canonical_id parse_identity_id parse_key_fingerprint author_of is_admin is_root_identity
    is_root canonical_json admin_request admin_decision admin_request_opened admin_request_server
    ledger_entry find_user user_role permission_rows user_permissions invited_by invite_creator
    has_account_removal suspended_by get_admin_request get_public_key update_user countersign
    long_text_fits recovering opened_before_recovery lookup remaining_targets decision_for_state
    state_for_decision target_count_fits needs_outside_approver granted_permissions
    granted_or_refuse first_target required_permissions check_actor_permissions check_decider
    set_suspended_by validate_suspend execute_suspend rebind_key_id has_executor validate_action
    execute_action check_target check_reason check_body validate_new_admin_request admin_caller
    caller_signing_key read_message insert_admin_request request_payload open_admin_request
    prepare_decision closed close_admin_request commit_decision append_ledger ledger_approved_entry
    append_ledger_entry last_entry split_last trim_space sort compact is_sorted
found_closed = refl

finished-Inv : Inv env finished
finished-Inv = Steps-Inv env start-Inv run

Steps-final_example :
    get_admin_request (drop_from_admin_requests env 102 finished "b@s") "r1" ≡ some closed_request
Steps-final_example =
    Steps-final env "r1" closed_request finished-Inv
      (more finished (drop_from_admin_requests env 102 finished "b@s")
        (drop_from_admin_requests env 102 finished "b@s") (dropped 102 finished "b@s")
        (done (drop_from_admin_requests env 102 finished "b@s")))
      found_closed executed_not_pending

commit_decision-Committed_example : Committed env 101 waiting prepared finished
commit_decision-Committed_example =
    commit_decision-Committed env 101 waiting prepared (omega arith) commit_run

prepare_decision_iff_example :
    (prepare_decision env 101 waiting "1@s" "r1" approval ≡ ok prepared)
    ↔ Genuine env 101 waiting "1@s" "r1" approval prepared
prepare_decision_iff_example = prepare_decision_iff env 101 waiting "1@s" "r1" approval prepared

check_decider_iff_example :
    (check_decider waiting "s" request "1@s" ≡ ok tt) ↔ Eligible waiting "s" request "1@s"
check_decider_iff_example = check_decider_iff waiting "s" request "1@s"

suspend_run : execute_action env 101 waiting request ≡ ok suspended
unfolding canonical_id parse_identity_id parse_key_fingerprint author_of is_admin is_root_identity
    is_root canonical_json admin_request admin_decision admin_request_opened admin_request_server
    ledger_entry find_user user_role permission_rows user_permissions invited_by invite_creator
    has_account_removal suspended_by get_admin_request get_public_key update_user countersign
    long_text_fits recovering opened_before_recovery lookup remaining_targets decision_for_state
    state_for_decision target_count_fits needs_outside_approver granted_permissions
    granted_or_refuse first_target required_permissions check_actor_permissions check_decider
    set_suspended_by validate_suspend execute_suspend rebind_key_id has_executor validate_action
    execute_action check_target check_reason check_body validate_new_admin_request admin_caller
    caller_signing_key read_message insert_admin_request request_payload open_admin_request
    prepare_decision closed close_admin_request commit_decision append_ledger ledger_approved_entry
    append_ledger_entry last_entry split_last trim_space sort compact is_sorted
suspend_run = refl

execute_action-Same_example : Same waiting suspended
execute_action-Same_example = execute_action-Same env 101 waiting request suspend_run

append_run :
    append_ledger_entry suspended
      (countersign env)
      "s"
      "F"
      101
      (record entry { id = 0; server_signature = none })
    ≡ ok (record suspended { ledger_entries = entry ∷ []; next_ledger_id = 2 }, entry)
unfolding canonical_id parse_identity_id parse_key_fingerprint author_of is_admin is_root_identity
    is_root canonical_json admin_request admin_decision admin_request_opened admin_request_server
    ledger_entry find_user user_role permission_rows user_permissions invited_by invite_creator
    has_account_removal suspended_by get_admin_request get_public_key update_user countersign
    long_text_fits recovering opened_before_recovery lookup remaining_targets decision_for_state
    state_for_decision target_count_fits needs_outside_approver granted_permissions
    granted_or_refuse first_target required_permissions check_actor_permissions check_decider
    set_suspended_by validate_suspend execute_suspend rebind_key_id has_executor validate_action
    execute_action check_target check_reason check_body validate_new_admin_request admin_caller
    caller_signing_key read_message insert_admin_request request_payload open_admin_request
    prepare_decision closed close_admin_request commit_decision append_ledger ledger_approved_entry
    append_ledger_entry last_entry split_last trim_space sort compact is_sorted
append_run = refl

append_ledger_entry-Appended_example :
    Appended
      (countersign env)
      "s"
      "F"
      101
      suspended
      (record entry { id = 0; server_signature = none })
      (record suspended { ledger_entries = entry ∷ []; next_ledger_id = 2 })
      entry
append_ledger_entry-Appended_example =
    append_ledger_entry-Appended suspended (countersign env) "s" "F" 101
      (record entry { id = 0; server_signature = none }) (omega arith) append_run

approve_leads : is_empty (state_for_decision "approve") ≡ false
unfolding canonical_id parse_identity_id parse_key_fingerprint author_of is_admin is_root_identity
    is_root canonical_json admin_request admin_decision admin_request_opened admin_request_server
    ledger_entry find_user user_role permission_rows user_permissions invited_by invite_creator
    has_account_removal suspended_by get_admin_request get_public_key update_user countersign
    long_text_fits recovering opened_before_recovery lookup remaining_targets decision_for_state
    state_for_decision target_count_fits needs_outside_approver granted_permissions
    granted_or_refuse first_target required_permissions check_actor_permissions check_decider
    set_suspended_by validate_suspend execute_suspend rebind_key_id has_executor validate_action
    execute_action check_target check_reason check_body validate_new_admin_request admin_caller
    caller_signing_key read_message insert_admin_request request_payload open_admin_request
    prepare_decision closed close_admin_request commit_decision append_ledger ledger_approved_entry
    append_ledger_entry last_entry split_last trim_space sort compact is_sorted
approve_leads = refl

root_named : ◌≢◌ {A = String} "1@s" ""
root_named e = ground (arith, (eq_iff "1@s" "").1 e)

execute_action-Keeps_example : find_user suspended "1@s" ≡ find_user waiting "1@s"
execute_action-Keeps_example =
    execute_action-Keeps "1@s" env 101 waiting request suspended root_named refl suspend_run
