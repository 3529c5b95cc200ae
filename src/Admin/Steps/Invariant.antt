-- ===== src/Admin/Steps/Invariant.antt =====
-- The invariant of the admin tables along the steps of src/backend/admin.go.
use syrinx.Common.{
  ℕ, String, ◌≡◌, ◌≢◌, refl, sym, ap, subst, ◌∙◌, inl, inr, true, not, ◌||◌, ◌==◌, Option, none,
  some, List, [], ◌∷◌, any, Result, ok, err, arith, Option-cases, eq-false_of_ne, >>=-eq-ok,
  >>-eq-ok, if_ok, ok_inj, ok_pair_inj, err-ok, Distinct-append, All-append, find-append, refuse_if,
  and-true,
}
use syrinx.Roles.{is_admin, is_root, is_root_identity}
use syrinx.Store.{ServerSignature, LedgerEntry, AdminDecision, AdminRequest, Db}
use syrinx.Store.Queries.{get_admin_request, user_role}
use syrinx.Ledger.Chain.{IsChain}
use syrinx.Admin.{Env, countersign}
use syrinx.Admin.State
use syrinx.Admin.Rules.{state_for_decision, decision_for_state}
use syrinx.Admin.Rules.States.{decision_for_state-state_for_decision}
use syrinx.Admin.Validate.{validate_new_admin_request}
use syrinx.Admin.Open.{
  Message, admin_caller, caller_signing_key, read_message, insert_admin_request, open_admin_request,
}
use syrinx.Admin.Decide.{
  Prepared, decision_in, closed, close_admin_request, prepare_decision, commit_decision,
}
use syrinx.Admin.Decide.Guard.{
  Allowed, Logged, entry_for, Closed-IsChain, close_admin_request-Closed, commit_decision-Committed,
}
use syrinx.Admin.Decide.Prepare.{prepare_decision-Genuine}
use syrinx.Admin.Moot.{
  drop_targets, has_target, drop_target, moot_signature, no_targets_left, commit_moot, commit_if,
  close_if_moot, or_unchanged, close_all, drop_from_admin_requests,
}
use syrinx.Admin.Steps.{
  Step, opened, decided, mooted, dropped, Steps, done, more, TwoPersons, Sound, Inv,
}
use syrinx.Admin.Steps.Evolve.{
  Evolves, Evolves-refl, Evolves-trans, update-Evolves, closing-Evolves,
}

root_of :
    (id role server_id : String)
    → is_root id role server_id ≡ true
    → is_root_identity id server_id ≡ true
unfolding is_root
root_of id role server_id h = (and-true _ _ h).0

persons_of :
    (env : Env) (db : Db) (r : AdminRequest) (p : Prepared) (d : AdminDecision)
    → d ≡ p.decision
    → d.decider_id ≡ p.caller_id
    → Allowed env db r p
    → TwoPersons env r d
persons_of env db r p d e who = elim [
  | inl (w, mine) ↦ inl (ap (λ x. x.decision) e ∙ w, who ∙ mine)
  | inr (n, el) ↦ inr (
    λ w. n (sym (ap (λ x. x.decision) e) ∙ w),
    elim el.second [
      | inl ne ↦ inl (λ q. ne (sym who ∙ q))
      | inr root ↦ inr (rw who (root_of p.caller_id (user_role db p.caller_id) env.server_id root))
    ],
    rw who el.no_target,
  )
]

Logged-IsChain :
    (env : Env) (now : ℕ) (e : Option LedgerEntry) (db after : Db)
    → Logged env now e db after
    → IsChain db
    → IsChain after
Logged-IsChain env now none db after l c = Closed-IsChain db after l.0 l.1 c
Logged-IsChain env now (some e) db after l c = l.1.chained

module _ (env : Env) where
  commit_decision-Evolves :
      (asked now : ℕ) (earlier db after : Db) (caller_id request_id : String)
      (decision : AdminDecision) (p : Prepared)
      → prepare_decision env asked earlier caller_id request_id decision ≡ ok p
      → commit_decision env now db p ≡ ok after
      → IsChain db
      → Evolves env db after
  unfolding closed decision_in
  commit_decision-Evolves asked now earlier db after caller_id request_id decision p asks commits
        chain =
      let g = prepare_decision-Genuine env asked earlier caller_id request_id decision asks in
      let c = commit_decision-Committed env now db p chain commits in
      let (_, caller, what, state, _) = g.carries in
      let name = decision_for_state-state_for_decision decision.decision g.known in
      let kept : decision_for_state p.state ≡ p.decision.decision =
        ap decision_for_state state ∙ name ∙ sym (ap (λ d. d.decision) what) in
      let stored : AdminDecision = record p.decision { decision = decision_for_state p.state } in
      let persons =
        persons_of env db c.locked p stored (ap (λ n. record p.decision { decision = n }) kept)
          (ap (λ d. d.decider_id) what ∙ g.by_caller ∙ sym caller) c.allowed in
      closing-Evolves env db after p.request_id c.locked p.state (some p.decision)
        p.server_signature c.found
        (λ i. inr (
          inl (record {
            decision = stored;
            signature = p.server_signature;
            recorded = refl;
            signed = refl;
            leads = state ∙ ap state_for_decision (sym name ∙ sym (ap decision_for_state state));
            persons = persons;
          })))
        (Logged-IsChain env now (entry_for env c.locked p) db after c.logged) c.requests

  insert_admin_request-Evolves :
      (db mid : Db) (r : AdminRequest)
      → (r.state ≡ State.pending) × (r.decision ≡ none) × (r.server_signature ≡ none)
      → insert_admin_request db r ≡ ok mid
      → Evolves env db mid
  unfolding insert_admin_request get_admin_request
  insert_admin_request-Evolves db mid r fresh_row made =
      if_ok (any (λ a. a.id == r.id) db.admin_requests) {a = mid} (λ _. err-ok)
        (λ fresh h1.
          subst (λ m. Evolves env db m) (ok_inj h1)
            (record {
              keeps = λ i. record {
                distinct = Distinct-append (λ a. a.id) db.admin_requests r i.distinct fresh;
                sound =
                    All-append (Sound env) db.admin_requests (r ∷ []) i.sound (inl fresh_row, tt);
                chain = i.chain;
              };
              final =
                  λ id a found n. find-append (λ b. b.id == id) db.admin_requests (r ∷ []) found;
            }))
        made

  open_admin_request-Evolves :
      (now : ℕ) (db after : Db) (caller_id : String) (msg : Message) (req : AdminRequest)
      → open_admin_request env now db caller_id msg ≡ ok (after, req)
      → Evolves env db after
  unfolding open_admin_request read_message
  open_admin_request-Evolves now db after caller_id msg req h =
      let (role, _, h1) = >>=-eq-ok (admin_caller db caller_id) _ h in
      let (_, h2) = >>-eq-ok (refuse_if (not (is_admin role)) _) _ h1 in
      let (_, h3) = >>-eq-ok (refuse_if (not (msg.requester_id == caller_id)) _) _ h2 in
      let (_, h4) =
        >>-eq-ok (validate_new_admin_request env now db (read_message caller_id msg) role) _ h3 in
      let (key, _, h5) = >>=-eq-ok (caller_signing_key db msg.signature.key_id caller_id) _ h4 in
      let (_, h6) = >>-eq-ok (refuse_if (not (env.crypto.verify_signature _ _ key.armor)) _) _ h5 in
      let (sig, _, h7) = >>=-eq-ok (countersign env _ now) _ h6 in
      let stored : AdminRequest = record (read_message caller_id msg) {
        requester_server_signature = sig;
      } in
      let (mid, made, h8) = >>=-eq-ok (insert_admin_request db stored) _ h7 in
      subst (λ d. Evolves env db d) (ok_pair_inj h8).0
        (insert_admin_request-Evolves db mid stored (refl, refl, refl) made)

  or_unchanged-Evolves :
      (db : Db) (r : Result Db)
      → ((after : Db) → r ≡ ok after → Evolves env db after)
      → Evolves env db (or_unchanged db r)
  unfolding or_unchanged
  or_unchanged-Evolves db (ok after) f = f after refl
  or_unchanged-Evolves db (err e) f = Evolves-refl env db

  moot_closed :
      (db after : Db) (id : String) (req : AdminRequest) (sig : ServerSignature)
      → get_admin_request db id ≡ some req
      → close_admin_request db req State.moot none sig ≡ ok after
      → Evolves env db after
  unfolding closed decision_in
  moot_closed db after id req sig found h =
      let c = close_admin_request-Closed db req State.moot none sig h in
      closing-Evolves env db after id req State.moot none sig found (λ i. inr (inr (refl, refl)))
        (Closed-IsChain db after c.entries c.next_id) c.requests

  commit_moot-Evolves :
      (db after : Db) (id : String) (sig : ServerSignature)
      → commit_moot db id sig ≡ ok after
      → Evolves env db after
  unfolding commit_moot
  commit_moot-Evolves db after id sig h = elim (Option-cases (get_admin_request db id)) [
    | inl e ↦
        subst (λ d. Evolves env db d) (ok_inj (rw (commit_moot, e) at h)) (Evolves-refl env db)
    | inr (req, e) ↦
        if_ok (not (req.state == State.pending) || not (no_targets_left req)) {a = after}
          (λ _ h1. subst (λ d. Evolves env db d) (ok_inj h1) (Evolves-refl env db))
          (λ _. moot_closed db after id req sig e) (rw (commit_moot, e) at h)
  ]

  commit_if-Evolves :
      (db after : Db) (id : String) (sig : Option ServerSignature)
      → commit_if db id sig ≡ ok after
      → Evolves env db after
  unfolding commit_if
  commit_if-Evolves db after id none h =
      subst (λ d. Evolves env db d) (ok_inj h) (Evolves-refl env db)
  commit_if-Evolves db after id (some sig) h = commit_moot-Evolves db after id sig h

  close_if_moot-Evolves :
      (now : ℕ) (db after : Db) (id : String)
      → close_if_moot env now db id ≡ ok after
      → Evolves env db after
  unfolding close_if_moot
  close_if_moot-Evolves now db after id h =
      let (sig, _, commits) = >>=-eq-ok (moot_signature env now db id) _ h in
      commit_if-Evolves db after id sig commits

  close_all-Evolves :
      (now : ℕ) (db : Db) (ids : List String) → Evolves env db (close_all env now db ids)
  unfolding close_all
  close_all-Evolves now db [] = Evolves-refl env db
  close_all-Evolves now db (id ∷ ids) =
      let next : Db = or_unchanged db (close_if_moot env now db id) in
      Evolves-trans env
        (or_unchanged-Evolves db (close_if_moot env now db id)
          (λ after. close_if_moot-Evolves now db after id))
        (close_all-Evolves now next ids)

  drop_target-Sound :
      (user_id : String) (r : AdminRequest) → Sound env r → Sound env (drop_target user_id r)
  unfolding drop_target
  drop_target-Sound user_id r = elim [
    | inl p ↦ inl p
    | inr (inl d) ↦ inr (
        inl (record {
          decision = d.decision;
          signature = d.signature;
          recorded = d.recorded;
          signed = d.signed;
          leads = d.leads;
          persons = d.persons;
        }))
    | inr (inr m) ↦ inr (inr m)
  ]

  drop_targets-Evolves : (db : Db) (user_id : String) → Evolves env db (drop_targets db user_id).0
  unfolding drop_targets has_target drop_target
  drop_targets-Evolves db user_id =
      update-Evolves env db (drop_targets db user_id).0 (has_target user_id) (drop_target user_id)
        (λ r. refl) (λ r n. ground (arith, eq-false_of_ne r.state State.pending n))
        (λ r t s. drop_target-Sound user_id r s) refl refl refl

  drop_from_admin_requests-Evolves :
      (now : ℕ) (db : Db) (user_id : String)
      → Evolves env db (drop_from_admin_requests env now db user_id)
  unfolding drop_from_admin_requests
  drop_from_admin_requests-Evolves now db user_id =
      Evolves-trans env (drop_targets-Evolves db user_id)
        (close_all-Evolves now (drop_targets db user_id).0 (drop_targets db user_id).1)

  Step-Evolves : {db after : Db} → Inv env db → Step env db after → Evolves env db after
  Step-Evolves i (opened now db after caller_id msg req h) =
      open_admin_request-Evolves now db after caller_id msg req h
  Step-Evolves i (decided asked now earlier db after caller_id request_id decision p asks commits) =
      commit_decision-Evolves asked now earlier db after caller_id request_id decision p asks
        commits i.chain
  Step-Evolves i (mooted asked earlier db after id sig signed commits) =
      commit_moot-Evolves db after id sig commits
  Step-Evolves i (dropped now db user_id) = drop_from_admin_requests-Evolves now db user_id

  Steps-Evolves : {db after : Db} → Inv env db → Steps env db after → Evolves env db after
  Steps-Evolves i (done db) = Evolves-refl env db
  Steps-Evolves i (more a b c s ss) =
      let e = Step-Evolves i s in Evolves-trans env e (Steps-Evolves (e.keeps i) ss)

  pub Steps-Inv : {db after : Db} → Inv env db → Steps env db after → Inv env after
  Steps-Inv i s = (Steps-Evolves i s).keeps i

  -- From a sound database, no sequence of those steps changes a request that is closed.
  pub Steps-final :
      {db after : Db} (id : String) (r : AdminRequest)
      → Inv env db
      → Steps env db after
      → get_admin_request db id ≡ some r
      → r.state ≢ State.pending
      → get_admin_request after id ≡ some r
  Steps-final id r i s found n = (Steps-Evolves i s).final id r found n
