-- ===== src/Admin/Executors/Frame.antt =====
-- What the executors of src/backend/admin_*.go do to the requests and to the ledger.
use syrinx.Common.{
  ℕ, String, ◌≡◌, refl, subst, ◌∙◌, inl, inr, ◌==◌, ◌||◌, Option, none, some, List, [], ◌∷◌, ◌++◌,
  ok, failed, refuse_if, or_fail, ◌>>=◌, ◌>>◌, >>=-eq-ok, >>-eq-ok, ok_inj, err-ok, if_ok,
  Bool-cases, Option-cases, ltb, find, is_empty, any,
}
use syrinx.Store.{Peer, ServerSignature, AccountRemoval, AdminRequest, Db}
use syrinx.Store.PeerEvents.{
  is_owed, enqueue_peer_event, account_removal, key_revocation, owe, owe_all,
}
use syrinx.Store.Flags.{
  drop_flags, gone_cases, void_case_if_done, settle_account_removal, settle_cases, settle_case,
}
use syrinx.Store.Queries.{update_user, find_user}
use syrinx.Roles.{role_admin, role_user}
use syrinx.Admin.{Env, countersign}
use syrinx.Admin.Action
use syrinx.Admin.Rules.{remaining_targets, granted_or_refuse, first_target}
use syrinx.Admin.Executors.{execute_action}
use syrinx.Admin.Executors.Suspend.{set_suspended_by, execute_suspend, execute_reinstate}
use syrinx.Admin.Executors.Profile.{
  recountersign_profile, execute_promote, profile_name, execute_demote, revoke_open_invites,
  revoke_where, set_user_permissions, set_profile,
}
use syrinx.Admin.Executors.Kick.{
  max_account_note_len, store_account_removal, remove_account, kick_one, kick_all, execute_kick,
  decision_armor, same_account_removal,
}
use syrinx.Admin.Executors.Rebind.{
  execute_rebind, revoke_lost_key, bind_key, rebind_key_id, has_key,
}

pub record Same (before after : Db) : Type 0 where
  pub requests : after.admin_requests ≡ before.admin_requests
  pub entries : after.ledger_entries ≡ before.ledger_entries
  pub next_id : after.next_ledger_id ≡ before.next_ledger_id

pub Same-refl : (db : Db) → Same db db
Same-refl db = record { requests = refl; entries = refl; next_id = refl }

pub Same-trans : {a b c : Db} → Same a b → Same b c → Same a c
Same-trans s t = record {
  requests = t.requests ∙ s.requests;
  entries = t.entries ∙ s.entries;
  next_id = t.next_id ∙ s.next_id;
}

Same-of_ok : {a b c : Db} → Same a b → ok b ≡ ok c → Same a c
Same-of_ok {a} s h = subst (λ d. Same a d) (ok_inj h) s

owe-Same :
    (kind subject_id : String) (db : Db) (peer : Peer) → Same db (owe kind subject_id db peer)
unfolding owe
owe-Same kind subject_id db peer = elim (Option-cases peer.revoked_at) [
  | inl e ↦ rw e (elim (Bool-cases (is_owed db.peer_event_queue peer.server_id kind subject_id)) [
    | inl t ↦ rw t (Same-refl db)
    | inr f ↦ rw f (record { requests = refl; entries = refl; next_id = refl })
  ])
  | inr (at, e) ↦ rw e (Same-refl db)
]

owe_all-Same :
    (kind subject_id : String) (db : Db) (peers : List Peer)
    → Same db (owe_all kind subject_id db peers)
unfolding owe_all
owe_all-Same kind subject_id db [] = Same-refl db
owe_all-Same kind subject_id db (p ∷ ps) =
    Same-trans (owe-Same kind subject_id db p)
      (owe_all-Same kind subject_id (owe kind subject_id db p) ps)

enqueue_peer_event-Same :
    (db : Db) (kind subject_id : String) → Same db (enqueue_peer_event db kind subject_id)
unfolding enqueue_peer_event
enqueue_peer_event-Same db kind subject_id = owe_all-Same kind subject_id db db.server_mesh

settle_case-Same : (db : Db) (id : String) → Same db (settle_case db id)
unfolding settle_case void_case_if_done
settle_case-Same db id = record { requests = refl; entries = refl; next_id = refl }

settle_cases-Same : (db : Db) (ids : List String) → Same db (settle_cases db ids)
unfolding settle_cases
settle_cases-Same db [] = Same-refl db
settle_cases-Same db (id ∷ ids) =
    Same-trans (settle_case-Same db id) (settle_cases-Same (settle_case db id) ids)

settle_account_removal-Same : (db : Db) (id : String) → Same db (settle_account_removal db id)
unfolding settle_account_removal drop_flags
settle_account_removal-Same db id =
    let s = settle_cases-Same (drop_flags db id) (gone_cases db id) in
    record { requests = s.requests; entries = s.entries; next_id = s.next_id }

set_suspended_by-Same :
    (db : Db) (id : String) (ts : List String) → Same db (set_suspended_by db id ts)
unfolding set_suspended_by update_user
set_suspended_by-Same db id [] = Same-refl db
set_suspended_by-Same db id (t ∷ ts) =
    let one : Db = update_user db t (λ u. record u { suspended_by = id }) in
    let s = set_suspended_by-Same one id ts in
    record { requests = s.requests; entries = s.entries; next_id = s.next_id }

module _ (env : Env) (now : ℕ) where
  recountersign_profile-Same :
      (db : Db) (id role : String) (perms : List String) {after : Db}
      → recountersign_profile env now db id role perms ≡ ok after
      → Same db after
  unfolding recountersign_profile set_profile set_user_permissions update_user
  recountersign_profile-Same db id role perms h =
      let (u, _, h1) = >>=-eq-ok (or_fail (find_user db id) _) _ h in
      let (us, _, h2) = >>=-eq-ok (or_fail u.user_signature _) _ h1 in
      let (name, _, h3) = >>=-eq-ok (or_fail (profile_name db u) _) _ h2 in
      let (sig, _, h4) = >>=-eq-ok (countersign env _ now) _ h3 in
      Same-of_ok (record { requests = refl; entries = refl; next_id = refl }) h4

  execute_promote-Same :
      (db : Db) (req : AdminRequest) {after : Db}
      → execute_promote env now db req ≡ ok after
      → Same db after
  unfolding execute_promote
  execute_promote-Same db req h =
      let (perms, _, h1) = >>=-eq-ok (granted_or_refuse req) _ h in
      recountersign_profile-Same db (first_target req) role_admin perms h1

  execute_demote-Same :
      (db : Db) (req : AdminRequest) {after : Db}
      → execute_demote env now db req ≡ ok after
      → Same db after
  unfolding execute_demote revoke_where
  execute_demote-Same db req h =
      let (mid, made, h1) =
        >>=-eq-ok (recountersign_profile env now db (first_target req) role_user []) _ h in
      let s = recountersign_profile-Same db (first_target req) role_user [] made in
      Same-of_ok (record { requests = s.requests; entries = s.entries; next_id = s.next_id }) h1

  remove_account-Same : (db : Db) (cert : AccountRemoval) → Same db (remove_account db cert)
  unfolding remove_account update_user
  remove_account-Same db cert =
      let stored : Db = record db { account_removals = db.account_removals ++ cert ∷ [] } in
      let s : Same db stored = record { requests = refl; entries = refl; next_id = refl } in
      let t = Same-trans s (
        Same-trans (settle_account_removal-Same stored cert.user_id) (
          enqueue_peer_event-Same (settle_account_removal stored cert.user_id) account_removal
            cert.user_id)) in
      record { requests = t.requests; entries = t.entries; next_id = t.next_id }

  store_account_removal-Same :
      (db : Db) (cert : AccountRemoval) {after : Db}
      → store_account_removal env db cert ≡ ok after
      → Same db after
  unfolding store_account_removal
  store_account_removal-Same db cert {after} h =
      if_ok (ltb max_account_note_len (env.count_characters cert.note)) {a = after} (λ _. err-ok)
        (λ _ h1. stored (find (λ r. r.user_id == cert.user_id) db.account_removals) h1) h
    where
      stored :
          {after : Db} (found : Option AccountRemoval)
          → (elim found [
            | some existing ↦ same_account_removal existing cert >> ok db
            | none ↦
                or_fail (find_user db cert.user_id) (failed "load profile signature ids") >>= λ u.
                or_fail u.user_signature (failed "load profile signature ids") >>= λ us.
                or_fail u.server_signature (failed "load profile signature ids") >>= λ ss.
                ok (remove_account db cert)
          ])
            ≡ ok after
          → Same db after
      stored none h1 =
          let (u, _, h2) = >>=-eq-ok (or_fail (find_user db cert.user_id) _) _ h1 in
          let (us, _, h3) = >>=-eq-ok (or_fail u.user_signature _) _ h2 in
          let (ss, _, h4) = >>=-eq-ok (or_fail u.server_signature _) _ h3 in
          Same-of_ok (remove_account-Same db cert) h4
      stored (some existing) h1 =
          Same-of_ok (Same-refl db) (>>-eq-ok (same_account_removal existing cert) _ h1).1

  kick_one-Same :
      (req : AdminRequest) (t : String) (db : Db) {after : Db}
      → kick_one env now req t db ≡ ok after
      → Same db after
  unfolding kick_one revoke_open_invites revoke_where
  kick_one-Same req t db h =
      let (armor, _, h1) = >>=-eq-ok (decision_armor req.decision) _ h in
      let (sig, _, h2) = >>=-eq-ok (countersign env _ now) _ h1 in
      let (mid, made, h3) = >>=-eq-ok (store_account_removal env db _) _ h2 in
      let s = store_account_removal-Same db _ made in
      Same-of_ok (record { requests = s.requests; entries = s.entries; next_id = s.next_id }) h3

  kick_all-Same :
      (req : AdminRequest) (ts : List String) (db : Db) {after : Db}
      → kick_all env now req ts db ≡ ok after
      → Same db after
  unfolding kick_all
  kick_all-Same req [] db h = Same-of_ok (Same-refl db) h
  kick_all-Same req (t ∷ ts) db h =
      let (mid, made, h1) = >>=-eq-ok (kick_one env now req t db) _ h in
      Same-trans (kick_one-Same req t db made) (kick_all-Same req ts mid h1)

  revoke_lost_key-Same :
      (db : Db) (key successor request_id : String) (sig : ServerSignature) {after : Db}
      → revoke_lost_key db key successor request_id sig ≡ ok after
      → Same db after
  unfolding revoke_lost_key
  revoke_lost_key-Same db key successor request_id sig {after} h =
      if_ok (any (λ r. r.key_id == key) db.key_revocations) {a = after} (λ _. err-ok)
        (λ _. Same-of_ok (record { requests = refl; entries = refl; next_id = refl })) h

  bind_key-Same :
      (db : Db) (id owner armor predecessor : String) (sig : ServerSignature) {after : Db}
      → bind_key db now id owner armor predecessor sig ≡ ok after
      → Same db after
  unfolding bind_key
  bind_key-Same db id owner armor predecessor sig {after} h =
      if_ok (has_key db id) {a = after} (λ _. err-ok)
        (λ _. Same-of_ok (record { requests = refl; entries = refl; next_id = refl })) h

  execute_rebind-Same :
      (db : Db) (req : AdminRequest) {after : Db}
      → execute_rebind env now db req ≡ ok after
      → Same db after
  unfolding execute_rebind revoke_open_invites revoke_where update_user
  execute_rebind-Same db req h =
      let (u, _, h1) = >>=-eq-ok (or_fail (find_user db (first_target req)) _) _ h in
      let (_, h2) = >>-eq-ok (refuse_if (is_empty u.active_key_id) _) _ h1 in
      let (armor, _, h3) = >>=-eq-ok (decision_armor req.decision) _ h2 in
      let (rsig, _, h4) = >>=-eq-ok (countersign env _ now) _ h3 in
      let (revoked, r, h5) =
        >>=-eq-ok (revoke_lost_key db u.active_key_id (rebind_key_id env req) req.id rsig) _ h4 in
      let (ksig, _, h6) = >>=-eq-ok (countersign env _ now) _ h5 in
      let (bound, b, h7) =
        >>=-eq-ok
          (bind_key (enqueue_peer_event revoked key_revocation u.active_key_id) now _ _ _ _ ksig) _
          h6 in
      let s = Same-trans (revoke_lost_key-Same db _ _ _ rsig r) (
        Same-trans (enqueue_peer_event-Same revoked key_revocation u.active_key_id)
          (bind_key-Same _ _ _ _ _ ksig b)) in
      Same-of_ok (record { requests = s.requests; entries = s.entries; next_id = s.next_id }) h7

  -- An executed action leaves the requests and the ledger as they were.
  pub execute_action-Same :
      (db : Db) (req : AdminRequest) {after : Db}
      → execute_action env now db req ≡ ok after
      → Same db after
  unfolding execute_action execute_suspend execute_reinstate execute_kick
  execute_action-Same db req {after} h =
      if_ok (req.action == Action.suspend) {a = after}
        (λ _. Same-of_ok (set_suspended_by-Same db req.id (remaining_targets req)))
        (λ _.
          if_ok (req.action == Action.reinstate) {a = after}
            (λ _. Same-of_ok (set_suspended_by-Same db "" (remaining_targets req)))
            (λ _.
              if_ok (req.action == Action.kick) {a = after}
                (λ _. kick_all-Same req (remaining_targets req) db)
                (λ _.
                  if_ok (req.action == Action.promote || req.action == Action.permissions)
                    {a = after} (λ _. execute_promote-Same db req)
                    (λ _.
                      if_ok (req.action == Action.demote) {a = after}
                        (λ _. execute_demote-Same db req)
                        (λ _.
                          if_ok (req.action == Action.rebind) {a = after}
                            (λ _. execute_rebind-Same db req) (λ _. Same-of_ok (Same-refl db)))))))
        h
