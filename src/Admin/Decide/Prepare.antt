-- ===== src/Admin/Decide/Prepare.antt =====
-- What the handler of DecideAdminRequest carries into its transaction.
use syrinx.Common.{
  ◌↔◌, sym, ap, none, refused, double_not, eq-false_of_ne, ◌⊎◌, ◌≢◌, ◌≤◌, ◌||◌, Bool, Bool-cases,
  inl, inr, ltb, ne_of_eq-false, find, find_test, failed, arith, ℕ, String, ◌≡◌, refl, subst, true,
  false, not, ◌&&◌, ◌==◌, some, ok, refuse_if, or_fail, >>=-eq-ok, >>-eq-ok, refuse_if-ok,
  or_fail-some, ok_inj, is_empty, eq_iff,
}
use syrinx.Identity.{canonical_id}
use syrinx.Signing.{Payload}
use syrinx.Signing.Payloads
use syrinx.Store.{ServerSignature, AdminDecision, AdminRequest, Db}
use syrinx.Store.Queries.{get_admin_request}
use syrinx.Admin.{Env, countersign, recovering, opened_before_recovery}
use syrinx.Admin.State
use syrinx.Admin.Decision
use syrinx.Admin.Rules.{state_for_decision}
use syrinx.Admin.Rules.Decider.{refuse_if-not}
use syrinx.Admin.Open.Signer.{UnrevokedKey, caller_signing_key_lem, UnrevokedKey-caller_signing_key}
use syrinx.Admin.Open.{admin_caller, caller_signing_key}
use syrinx.Admin.Executors.{has_executor}
use syrinx.Admin.Decide.{Prepared, prepare_decision}

-- The state that each of the three decisions leads to
abbrev pub Leads : String → String → Type 0
Leads decision state =
    ((decision ≡ Decision.approve) × (state ≡ State.executed))
    ⊎ (((decision ≡ Decision.reject) × (state ≡ State.rejected))
        ⊎ ((decision ≡ Decision.withdraw) × (state ≡ State.withdrawn)))

contradiction : true ≡ false → ⊥
contradiction e = ground arith

leads :
    (decision : String)
    → is_empty (state_for_decision decision) ≡ false
    → Leads decision (state_for_decision decision)
unfolding state_for_decision
leads decision h = elim (Bool-cases (decision == Decision.approve)) [
  | inl a ↦ rw a (inl ((eq_iff _ _).0 a, refl))
  | inr b ↦ elim (Bool-cases (decision == Decision.reject)) [
    | inl r ↦ rw (b, r) (inr (inl ((eq_iff _ _).0 r, refl)))
    | inr s ↦ elim (Bool-cases (decision == Decision.withdraw)) [
      | inl w ↦ rw (b, s, w) (inr (inr ((eq_iff _ _).0 w, refl)))
      | inr t ↦ absurd (contradiction (rw (b, s, t) at h))
    ]
  ]
]

-- Recovery blocks what was opened before the first boot since.
no_recovery :
    (env : Env) (db : Db) (req : AdminRequest)
    → opened_before_recovery env db req ≡ false
    → ((env.recovery_mode ≢ "lockdown") × (env.recovery_mode ≢ "operational"))
      ⊎ (db.first_boot_at ≤ req.created_at)
unfolding opened_before_recovery recovering
no_recovery env db req h =
    elim (Bool-cases (env.recovery_mode == "lockdown" || env.recovery_mode == "operational")) [
      | inl t ↦ inr (late req.created_at db.first_boot_at (rw t at h))
      | inr f ↦ let (a, b) = none_of _ _ f in inl (ne_of_eq-false _ _ a, ne_of_eq-false _ _ b)
    ]
  where
    late : (a b : ℕ) → ltb a b ≡ false → b ≤ a
    late a b h = ground arith

    none_of : (a b : Bool) → (a || b) ≡ false → (a ≡ false) × (b ≡ false)
    none_of a b h = ground arith

signed_by :
    (env : Env) (payload : Payload) (now : ℕ) (sig : ServerSignature)
    → countersign env payload now ≡ ok sig
    → (env.crypto.sign payload env.private_armor ≡ some sig.armor)
      × (sig.key_id ≡ canonical_id env.server_id env.fingerprint none)
      × (sig.signed_at ≡ now)
unfolding countersign
signed_by env payload now sig h =
    let (armor, made, e) =
      >>=-eq-ok (or_fail (env.crypto.sign payload env.private_armor) (failed "countersign")) _ h in
    subst
      (λ x.
        (env.crypto.sign payload env.private_armor ≡ some x.armor)
        × (x.key_id ≡ canonical_id env.server_id env.fingerprint none)
        × (x.signed_at ≡ now))
      (ok_inj e) (or_fail-some _ made, refl, refl)

signs :
    (env : Env) (payload : Payload) (now : ℕ) (sig : ServerSignature)
    → env.crypto.sign payload env.private_armor ≡ some sig.armor
    → sig.key_id ≡ canonical_id env.server_id env.fingerprint none
    → sig.signed_at ≡ now
    → countersign env payload now ≡ ok sig
unfolding countersign
signs env payload now sig made named at =
    rw (countersign, made)
      (λ i. ok (record { key_id = sym named i; armor = sig.armor; signed_at = sym at i }))

recovery_over :
    (env : Env) (db : Db) (req : AdminRequest)
    → ((env.recovery_mode ≢ "lockdown") × (env.recovery_mode ≢ "operational"))
      ⊎ (db.first_boot_at ≤ req.created_at)
    → opened_before_recovery env db req ≡ false
unfolding opened_before_recovery recovering
recovery_over env db req = elim [
  | inl (a, b) ↦
      rw (opened_before_recovery, recovering, eq-false_of_ne _ _ a, eq-false_of_ne _ _ b) refl
  | inr late ↦ after _ req.created_at db.first_boot_at late
]
  where
    after : (r : Bool) (a b : ℕ) → b ≤ a → (r && ltb a b) ≡ false
    after r a b le = ground (arith, le)

can_execute :
    (approves able : Bool) → ((approves && not able) ≡ false) ↔ ((approves ≡ false) ⊎ (able ≡ true))
can_execute true able =
    (λ h. inr (double_not able h), elim [ inl e ↦ absurd (contradiction e) | inr e ↦ rw e refl ])
can_execute false able = (λ h. inl refl, λ h. refl)

find_request :
    (db : Db) (id : String) (req : AdminRequest)
    → get_admin_request db id ≡ some req
    → (find (λ r. r.id == id) db.admin_requests ≡ some req) × (req.id ≡ id)
unfolding get_admin_request
find_request db id req h =
    (h, (eq_iff req.id id).0 (find_test (λ r. r.id == id) db.admin_requests h))

caller_named :
    (db : Db) (caller_id role : String)
    → admin_caller db caller_id ≡ ok role
    → is_empty caller_id ≡ false
unfolding admin_caller
caller_named db caller_id role h =
    let (named, _) =
      >>-eq-ok (refuse_if (is_empty caller_id) (refused 401 "authentication required")) _ h in
    refuse_if-ok _ _ named

-- The decision is the caller's, one of the three, signed by a key of the caller's over this request,
-- and the server's signature is over the state that it leads to.
pub record Genuine (env : Env) (now : ℕ) (db : Db) (caller_id request_id : String)
    (decision : AdminDecision) (p : Prepared) : Type 0 where
  pub req : AdminRequest
  pub armor : String
  pub found : (find (λ r. r.id == request_id) db.admin_requests ≡ some req) × (req.id ≡ request_id)
  pub pending : req.state ≡ State.pending
  pub settled :
      ((env.recovery_mode ≢ "lockdown") × (env.recovery_mode ≢ "operational"))
      ⊎ (db.first_boot_at ≤ req.created_at)
  pub caller : is_empty caller_id ≡ false
  pub by_caller : decision.decider_id ≡ caller_id
  pub known : is_empty (state_for_decision decision.decision) ≡ false
  pub leads_to : Leads decision.decision p.state
  pub own_key : UnrevokedKey db decision.signature.key_id caller_id armor
  pub signed :
      env.crypto.verify_signature
        (Payloads.admin_decision req.id decision.decision caller_id decision.signature.key_id
          req.requester_signature.armor)
        decision.signature.armor
        armor
      ≡ true
  pub countersigned :
      (env.crypto.sign
          (Payloads.admin_request_server req.id p.state req.requester_signature.armor
            decision.signature.armor env.server_id env.fingerprint now)
          env.private_armor
        ≡ some p.server_signature.armor)
      × (p.server_signature.key_id ≡ canonical_id env.server_id env.fingerprint none)
      × (p.server_signature.signed_at ≡ now)
  pub executable :
      ((decision.decision == Decision.approve) ≡ false) ⊎ (has_executor req.action ≡ true)
  pub carries :
      (p.request_id ≡ req.id)
      × (p.caller_id ≡ caller_id)
      × (p.decision ≡ decision)
      × (p.state ≡ state_for_decision decision.decision)
      × (p.approves ≡ (decision.decision == Decision.approve))

module _ (env : Env) (now : ℕ) (db : Db) (caller_id request_id : String)
    (decision : AdminDecision) where
  -- What is carried into the transaction is one of the three decisions with the state that it
  -- leads to, made by the caller, on the pending row of that id, which was opened since the first
  -- boot where the server is recovering. It is signed over that request with a key in the table
  -- that is the caller's and that no revocation names, and the server has signed the state with
  -- it.
  pub prepare_decision-Genuine :
      {p : Prepared}
      → prepare_decision env now db caller_id request_id decision ≡ ok p
      → Genuine env now db caller_id request_id decision p
  unfolding prepare_decision
  prepare_decision-Genuine {p} h =
      let (role, called, h1) = >>=-eq-ok (admin_caller db caller_id) _ h in
      let (known, h2) =
        >>-eq-ok (refuse_if (is_empty (state_for_decision decision.decision)) _) _ h1 in
      let (mine, h3) = >>-eq-ok (refuse_if (not (decision.decider_id == caller_id)) _) _ h2 in
      let (req, found, h4) = >>=-eq-ok (or_fail (get_admin_request db request_id) _) _ h3 in
      let (pending, h5) = >>-eq-ok (refuse_if (not (req.state == State.pending)) _) _ h4 in
      let (settled, h6) = >>-eq-ok (refuse_if (opened_before_recovery env db req) _) _ h5 in
      let (key, own, h7) =
        >>=-eq-ok (caller_signing_key db decision.signature.key_id caller_id) _ h6 in
      let (signed, h8) = >>-eq-ok (refuse_if (not (env.crypto.verify_signature _ _ _)) _) _ h7 in
      let (known_action, h9) =
        >>-eq-ok
          (refuse_if (decision.decision == Decision.approve && not (has_executor req.action)) _) _
          h8 in
      let (sig, made, h10) = >>=-eq-ok (countersign env _ now) _ h9 in
      subst (λ p. Genuine env now db caller_id request_id decision p) (ok_inj h10)
        (record {
          req = req;
          armor = key.armor;
          caller = caller_named db caller_id role called;
          found = find_request db request_id req (or_fail-some _ found);
          pending = (eq_iff _ _).0 (refuse_if-not _ _ pending);
          settled = no_recovery env db req (refuse_if-ok _ _ settled);
          by_caller = (eq_iff _ _).0 (refuse_if-not _ _ mine);
          known = refuse_if-ok _ _ known;
          leads_to = leads decision.decision (refuse_if-ok _ _ known);
          own_key = caller_signing_key_lem db _ caller_id key own;
          signed = refuse_if-not _ _ signed;
          countersigned = signed_by env _ now _ made;
          executable = (can_execute _ _).0 (refuse_if-ok _ _ known_action);
          carries = (refl, refl, refl, refl, refl);
        })

  prepared :
      (p : Prepared) (g : Genuine env now db caller_id request_id decision p)
      (sig : ServerSignature)
      → sig ≡ p.server_signature
      → ◌≡◌ {A = Prepared}
          (record {
            request_id = g.req.id;
            caller_id = caller_id;
            decision = decision;
            state = state_for_decision decision.decision;
            approves = decision.decision == Decision.approve;
            server_signature = sig;
          })
          p
  prepared p g sig e =
      let (a, b, c, d, f) = g.carries in
      λ i. record {
        request_id = sym a i;
        caller_id = sym b i;
        decision = sym c i;
        state = sym d i;
        approves = sym f i;
        server_signature = e i;
      }

  pub Genuine-prepare_decision :
      (p : Prepared)
      → Genuine env now db caller_id request_id decision p
      → prepare_decision env now db caller_id request_id decision ≡ ok p
  unfolding prepare_decision admin_caller get_admin_request
  Genuine-prepare_decision p g =
      let (key, own, text) =
        UnrevokedKey-caller_signing_key db _ caller_id g.armor g.caller g.own_key in
      let state_is = g.carries.3 in
      let signed =
        subst
          (λ x.
            env.crypto.verify_signature
              (Payloads.admin_decision g.req.id decision.decision caller_id
                decision.signature.key_id g.req.requester_signature.armor)
              decision.signature.armor x
            ≡ true)
          (sym text) g.signed in
      let made =
        signs env
          (Payloads.admin_request_server g.req.id (state_for_decision decision.decision)
            g.req.requester_signature.armor decision.signature.armor env.server_id env.fingerprint
            now)
          now p.server_signature
          (subst
            (λ x.
              env.crypto.sign
                (Payloads.admin_request_server g.req.id x g.req.requester_signature.armor
                  decision.signature.armor env.server_id env.fingerprint now)
                env.private_armor
              ≡ some p.server_signature.armor)
            state_is g.countersigned.0)
          g.countersigned.1 g.countersigned.2 in
      let mine = (eq_iff decision.decider_id caller_id).1 g.by_caller in
      let pending = (eq_iff g.req.state State.pending).1 g.pending in
      let settled = recovery_over env db g.req g.settled in
      let able = (can_execute _ (has_executor g.req.action)).1 g.executable in
      rw
        (
          prepare_decision, admin_caller, g.caller, g.known, mine, get_admin_request, g.found.0,
          pending, settled, own, signed, able, made,
        )
        (ap ok (prepared p g p.server_signature refl))

  -- A decision is carried into the transaction exactly when it is one of the three, made by the
  -- caller, who has an id, on the pending row of that request id, which was opened since the first
  -- boot where the server is recovering, and whose action can be executed where it approves. It is
  -- signed over that request with a key in the table that is the caller's and that no revocation
  -- names; what is carried is the decision with the state that it leads to, and the server's
  -- signature over that state.
  pub prepare_decision_iff :
      (p : Prepared)
      → (prepare_decision env now db caller_id request_id decision ≡ ok p)
        ↔ Genuine env now db caller_id request_id decision p
  prepare_decision_iff p = (prepare_decision-Genuine, Genuine-prepare_decision p)
