-- ===== src/Admin/Executors/Others.antt =====
-- What the executors of src/backend/admin_*.go do to rows of the users table other than their targets'.
use syrinx.Common.{
  ℕ, String, ◌≡◌, ◌≢◌, refl, sym, ap, subst, ◌∙◌, false, not, ◌==◌, ◌||◌, Option, none, some, List,
  [], ◌∷◌, ◌++◌, ok, failed, refuse_if, or_fail, ◌>>=◌, ◌>>◌, >>=-eq-ok, >>-eq-ok, ok_inj,
  eq-false_of_ne, err-ok, if_ok, arith, ltb, find, is_empty, any, contains,
}
use syrinx.Roles.{role_admin, role_user}
use syrinx.Store.{ServerSignature, User, AccountRemoval, AdminRequest, Db}
use syrinx.Store.PeerEvents.{enqueue_peer_event, account_removal, key_revocation}
use syrinx.Store.Flags.{settle_account_removal}
use syrinx.Store.Queries.{update_user, find_user}
use syrinx.Admin.{Env, countersign}
use syrinx.Admin.Action
use syrinx.Admin.Rules.{remaining_targets, granted_or_refuse, first_target}
use syrinx.Admin.Executors.{execute_action}
use syrinx.Admin.Executors.Suspend.{set_suspended_by, execute_suspend, execute_reinstate}
use syrinx.Admin.Executors.Profile.{
  recountersign_profile, profile_name, execute_promote, execute_demote, revoke_open_invites,
  revoke_where, set_user_permissions, set_profile,
}
use syrinx.Admin.Executors.Kick.{
  max_account_note_len, store_account_removal, remove_account, kick_one, kick_all, execute_kick,
  decision_armor, clear_profile, same_account_removal, clear_profile,
}
use syrinx.Admin.Executors.Rebind.{
  execute_rebind, revoke_lost_key, bind_key, rebind_key_id, has_key,
}
use syrinx.Admin.Executors.Untouched.{
  enqueue_peer_event-users, settle_account_removal-users, find-update_row, select_keeps,
}

module _ (u : String) where
  abbrev pub Keeps : Db → Db → Type 0
  Keeps a b = find_user b u ≡ find_user a u

  users-Keeps : (a b : Db) → b.users ≡ a.users → Keeps a b
  unfolding find_user
  users-Keeps a b e = ap (find (λ v. v.id == u)) e

  update_user-Keeps :
      (db : Db) (t : String) (f : User → User)
      → ((v : User) → (f v).id ≡ v.id)
      → (t == u) ≡ false
      → Keeps db (update_user db t f)
  unfolding find_user update_user
  update_user-Keeps db t f keep n = find-update_row t u f db.users keep n

  first_of :
      (ts : List String)
      → u ≢ ""
      → contains ts u ≡ false
      → ((elim ts [ [] ↦ "" | t ∷ rest ↦ t ]) == u) ≡ false
  first_of [] named n = eq-false_of_ne "" u (λ e. named (sym e))
  first_of (t ∷ ts) named n = ground arith

  first_other :
      (req : AdminRequest)
      → u ≢ ""
      → contains req.targets u ≡ false
      → (first_target req == u) ≡ false
  unfolding first_target
  first_other req named n = first_of req.targets named n

  Keeps-of_ok : (a b c : Db) → Keeps a b → ok b ≡ ok c → Keeps a c
  Keeps-of_ok a b c k h = subst (λ d. Keeps a d) (ok_inj h) k

  set_suspended_by-Keeps :
      (db : Db) (id : String) (ts : List String)
      → contains ts u ≡ false
      → Keeps db (set_suspended_by db id ts)
  unfolding set_suspended_by
  set_suspended_by-Keeps db id [] n = refl
  set_suspended_by-Keeps db id (t ∷ ts) n =
      let one : Db = update_user db t (λ v. record v { suspended_by = id }) in
      set_suspended_by-Keeps one id ts (ground arith)
      ∙ update_user-Keeps db t (λ v. record v { suspended_by = id }) (λ v. refl) (ground arith)

  module _ (env : Env) (now : ℕ) where
    recountersign_profile-Keeps :
        (db : Db) (id role : String) (perms : List String) (after : Db)
        → (id == u) ≡ false
        → recountersign_profile env now db id role perms ≡ ok after
        → Keeps db after
    unfolding recountersign_profile set_profile set_user_permissions
    recountersign_profile-Keeps db id role perms after n h =
        let (v, _, h1) = >>=-eq-ok (or_fail (find_user db id) _) _ h in
        let (us, _, h2) = >>=-eq-ok (or_fail v.user_signature _) _ h1 in
        let (name, _, h3) = >>=-eq-ok (or_fail (profile_name db v) _) _ h2 in
        let (sig, _, h4) = >>=-eq-ok (countersign env _ now) _ h3 in
        let mid : Db =
          update_user db id (λ w. record w { role = role; server_signature = some sig }) in
        subst (λ d. Keeps db d) (ok_inj h4)
          (users-Keeps mid (set_user_permissions mid id perms) refl
            ∙ update_user-Keeps db id (λ w. record w { role = role; server_signature = some sig })
                (λ w. refl) n)

    execute_promote-Keeps :
        (db : Db) (req : AdminRequest) (after : Db)
        → (first_target req == u) ≡ false
        → execute_promote env now db req ≡ ok after
        → Keeps db after
    unfolding execute_promote
    execute_promote-Keeps db req after n h =
        let (perms, _, h1) = >>=-eq-ok (granted_or_refuse req) _ h in
        recountersign_profile-Keeps db (first_target req) role_admin perms after n h1

    execute_demote-Keeps :
        (db : Db) (req : AdminRequest) (after : Db)
        → (first_target req == u) ≡ false
        → execute_demote env now db req ≡ ok after
        → Keeps db after
    unfolding execute_demote revoke_where
    execute_demote-Keeps db req after n h =
        let (mid, made, h1) =
          >>=-eq-ok (recountersign_profile env now db (first_target req) role_user []) _ h in
        users-Keeps mid after (sym (ap (λ d. d.users) (ok_inj h1)))
        ∙ recountersign_profile-Keeps db (first_target req) role_user [] mid n made

    remove_account-Keeps :
        (db : Db) (cert : AccountRemoval)
        → (cert.user_id == u) ≡ false
        → Keeps db (remove_account db cert)
    unfolding remove_account clear_profile
    remove_account-Keeps db cert n =
        let stored : Db = record db { account_removals = db.account_removals ++ cert ∷ [] } in
        let settled : Db = settle_account_removal stored cert.user_id in
        let owed : Db = enqueue_peer_event settled account_removal cert.user_id in
        let cleared : Db = update_user owed cert.user_id clear_profile in
        users-Keeps cleared (remove_account db cert) refl
        ∙ update_user-Keeps owed cert.user_id clear_profile (λ v. refl) n
        ∙ users-Keeps db owed (
            enqueue_peer_event-users settled account_removal cert.user_id
            ∙ settle_account_removal-users stored cert.user_id)

    store_account_removal-Keeps :
        (db : Db) (cert : AccountRemoval) (after : Db)
        → (cert.user_id == u) ≡ false
        → store_account_removal env db cert ≡ ok after
        → Keeps db after
    unfolding store_account_removal
    store_account_removal-Keeps db cert after n h =
        if_ok (ltb max_account_note_len (env.count_characters cert.note)) {a = after} (λ _. err-ok)
          (λ _ h1. stored (find (λ r. r.user_id == cert.user_id) db.account_removals) h1) h
      where
        stored :
            (found : Option AccountRemoval)
            → (elim found [
              | some existing ↦ same_account_removal existing cert >> ok db
              | none ↦
                  or_fail (find_user db cert.user_id) (failed "load profile signature ids") >>= λ v.
                  or_fail v.user_signature (failed "load profile signature ids") >>= λ us.
                  or_fail v.server_signature (failed "load profile signature ids") >>= λ ss.
                  ok (remove_account db cert)
            ])
              ≡ ok after
            → Keeps db after
        stored none h1 =
            let (v, _, h2) = >>=-eq-ok (or_fail (find_user db cert.user_id) _) _ h1 in
            let (us, _, h3) = >>=-eq-ok (or_fail v.user_signature _) _ h2 in
            let (ss, _, h4) = >>=-eq-ok (or_fail v.server_signature _) _ h3 in
            Keeps-of_ok db (remove_account db cert) after (remove_account-Keeps db cert n) h4
        stored (some existing) h1 =
            Keeps-of_ok db db after refl (>>-eq-ok (same_account_removal existing cert) _ h1).1

    kick_one-Keeps :
        (req : AdminRequest) (t : String) (db after : Db)
        → (t == u) ≡ false
        → kick_one env now req t db ≡ ok after
        → Keeps db after
    unfolding kick_one revoke_open_invites revoke_where
    kick_one-Keeps req t db after n h =
        let (armor, _, h1) = >>=-eq-ok (decision_armor req.decision) _ h in
        let (sig, _, h2) = >>=-eq-ok (countersign env _ now) _ h1 in
        let (mid, made, h3) = >>=-eq-ok (store_account_removal env db _) _ h2 in
        users-Keeps mid after (sym (ap (λ d. d.users) (ok_inj h3)))
        ∙ store_account_removal-Keeps db _ mid n made

    kick_all-Keeps :
        (req : AdminRequest) (ts : List String) (db after : Db)
        → contains ts u ≡ false
        → kick_all env now req ts db ≡ ok after
        → Keeps db after
    unfolding kick_all
    kick_all-Keeps req [] db after n h = Keeps-of_ok db db after refl h
    kick_all-Keeps req (t ∷ ts) db after n h =
        let (mid, made, h1) = >>=-eq-ok (kick_one env now req t db) _ h in
        kick_all-Keeps req ts mid after (ground arith) h1
        ∙ kick_one-Keeps req t db mid (ground arith) made

    revoke_lost_key-users :
        (db : Db) (key successor request_id : String) (sig : ServerSignature) (after : Db)
        → revoke_lost_key db key successor request_id sig ≡ ok after
        → after.users ≡ db.users
    unfolding revoke_lost_key
    revoke_lost_key-users db key successor request_id sig after h =
        if_ok (any (λ r. r.key_id == key) db.key_revocations) {a = after} (λ _. err-ok)
          (λ _ h1. sym (ap (λ d. d.users) (ok_inj h1))) h

    bind_key-users :
        (db : Db) (id owner armor predecessor : String) (sig : ServerSignature) (after : Db)
        → bind_key db now id owner armor predecessor sig ≡ ok after
        → after.users ≡ db.users
    unfolding bind_key
    bind_key-users db id owner armor predecessor sig after h =
        if_ok (has_key db id) {a = after} (λ _. err-ok)
          (λ _ h1. sym (ap (λ d. d.users) (ok_inj h1))) h

    execute_rebind-Keeps :
        (db : Db) (req : AdminRequest) (after : Db)
        → (first_target req == u) ≡ false
        → execute_rebind env now db req ≡ ok after
        → Keeps db after
    unfolding execute_rebind revoke_open_invites revoke_where
    execute_rebind-Keeps db req after n h =
        let (v, _, h1) = >>=-eq-ok (or_fail (find_user db (first_target req)) _) _ h in
        let (_, h2) = >>-eq-ok (refuse_if (is_empty v.active_key_id) _) _ h1 in
        let (armor, _, h3) = >>=-eq-ok (decision_armor req.decision) _ h2 in
        let (rsig, _, h4) = >>=-eq-ok (countersign env _ now) _ h3 in
        let (revoked, r, h5) =
          >>=-eq-ok (revoke_lost_key db v.active_key_id (rebind_key_id env req) req.id rsig) _ h4 in
        let (ksig, _, h6) = >>=-eq-ok (countersign env _ now) _ h5 in
        let owed : Db = enqueue_peer_event revoked key_revocation v.active_key_id in
        let (bound, b, h7) = >>=-eq-ok (bind_key owed now _ _ _ _ ksig) _ h6 in
        let moved : Db =
          update_user bound (first_target req)
            (λ w. record w { active_key_id = rebind_key_id env req }) in
        users-Keeps moved after (sym (ap (λ d. d.users) (ok_inj h7)))
        ∙ update_user-Keeps bound (first_target req)
            (λ w. record w { active_key_id = rebind_key_id env req }) (λ w. refl) n
        ∙ users-Keeps db bound (
            bind_key-users owed _ _ _ _ ksig bound b
            ∙ enqueue_peer_event-users revoked key_revocation v.active_key_id
            ∙ revoke_lost_key-users db _ _ _ rsig revoked r)

    -- An executed action leaves the users row of anyone as it was whose id is not empty and not
    -- among its targets.
    pub execute_action-Keeps :
        (db : Db) (req : AdminRequest) (after : Db)
        → u ≢ ""
        → contains req.targets u ≡ false
        → execute_action env now db req ≡ ok after
        → find_user after u ≡ find_user db u
    unfolding execute_action execute_suspend execute_reinstate execute_kick
    execute_action-Keeps db req after named n h =
        let first = first_other req named n in
        let rest = select_keeps (λ t. not (contains req.dropped t)) req.targets u n in
        if_ok (req.action == Action.suspend) {a = after}
          (λ _. Keeps-of_ok db _ after (
            set_suspended_by-Keeps db req.id (remaining_targets req)
              (unfold remaining_targets in rest)))
          (λ _.
            if_ok (req.action == Action.reinstate) {a = after}
              (λ _. Keeps-of_ok db _ after (
                set_suspended_by-Keeps db "" (remaining_targets req)
                  (unfold remaining_targets in rest)))
              (λ _.
                if_ok (req.action == Action.kick) {a = after}
                  (λ _.
                    kick_all-Keeps req (remaining_targets req) db after
                      (unfold remaining_targets in rest))
                  (λ _.
                    if_ok (req.action == Action.promote || req.action == Action.permissions)
                      {a = after} (λ _. execute_promote-Keeps db req after first)
                      (λ _.
                        if_ok (req.action == Action.demote) {a = after}
                          (λ _. execute_demote-Keeps db req after first)
                          (λ _.
                            if_ok (req.action == Action.rebind) {a = after}
                              (λ _. execute_rebind-Keeps db req after first)
                              (λ _. Keeps-of_ok db db after refl))))))
          h
