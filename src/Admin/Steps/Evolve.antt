-- ===== src/Admin/Steps/Evolve.antt =====
-- How one operation moves the tables on.
use syrinx.Common.{
  String, ◌≡◌, ◌≢◌, refl, ap, Bool, true, false, ◌&&◌, ◌==◌, Option, some, update, arith,
  eq-false_of_ne, Distinct-update, All-update, All-update_found, find-update_other,
}
use syrinx.Store.{AdminDecision, ServerSignature, AdminRequest, Db}
use syrinx.Store.Queries.{get_admin_request}
use syrinx.Ledger.Chain.{IsChain}
use syrinx.Admin.{Env}
use syrinx.Admin.State
use syrinx.Admin.Decide.{closed}
use syrinx.Admin.Decide.Guard.{Closed-IsChain}
use syrinx.Admin.Steps.{Sound, Inv}

-- The invariant is kept, and a closed request stays as it is.
pub record Evolves (env : Env) (before after : Db) : Type 0 where
  pub keeps : Inv env before → Inv env after
  pub final :
      (id : String) (r : AdminRequest)
      → get_admin_request before id ≡ some r
      → r.state ≢ State.pending
      → get_admin_request after id ≡ some r

pub Evolves-refl : (env : Env) (db : Db) → Evolves env db db
Evolves-refl env db = record { keeps = λ i. i; final = λ id r f n. f }

pub Evolves-trans : (env : Env) {a b c : Db} → Evolves env a b → Evolves env b c → Evolves env a c
Evolves-trans env e g = record {
  keeps = λ i. g.keeps (e.keeps i);
  final = λ id r f n. g.final id r (e.final id r f n) n;
}

final_update :
    (before after : Db) (q : AdminRequest → Bool) (f : AdminRequest → AdminRequest)
    → ((r : AdminRequest) → (f r).id ≡ r.id)
    → ((r : AdminRequest) → r.state ≢ State.pending → q r ≡ false)
    → after.admin_requests ≡ update q f before.admin_requests
    → (id : String) (r : AdminRequest) → get_admin_request before id ≡ some r
    → r.state ≢ State.pending
    → get_admin_request after id ≡ some r
unfolding get_admin_request
final_update before after q f keep only eq id r found n = rw eq (
    find-update_other (λ a. a.id == id) q f before.admin_requests (λ a. ap (λ k. k == id) (keep a))
      found (only r n))

-- An UPDATE of pending rows that keeps each row sound
pub update-Evolves :
    (env : Env) (before after : Db) (q : AdminRequest → Bool) (f : AdminRequest → AdminRequest)
    → ((r : AdminRequest) → (f r).id ≡ r.id)
    → ((r : AdminRequest) → r.state ≢ State.pending → q r ≡ false)
    → ((r : AdminRequest) → q r ≡ true → Sound env r → Sound env (f r))
    → after.admin_requests ≡ update q f before.admin_requests
    → after.ledger_entries ≡ before.ledger_entries
    → after.next_ledger_id ≡ before.next_ledger_id
    → Evolves env before after
update-Evolves env before after q f keep only sound eq es n = record {
  keeps = λ i. record {
    distinct = rw eq (Distinct-update (λ r. r.id) q f before.admin_requests keep i.distinct);
    sound = rw eq (All-update (Sound env) q f before.admin_requests sound i.sound);
    chain = Closed-IsChain before after es n i.chain;
  };
  final = final_update before after q f keep only eq;
}

-- Closing the pending request that a SELECT by its id has returned
pub closing-Evolves :
    (env : Env) (before after : Db) (id : String) (req : AdminRequest) (state : String)
    (decision : Option AdminDecision) (sig : ServerSignature)
    → get_admin_request before id ≡ some req
    → (Inv env before → Sound env (closed state decision sig req))
    → (IsChain before → IsChain after)
    → after.admin_requests
      ≡ update
          (λ r. r.id == req.id && r.state == State.pending)
          (closed state decision sig)
          before.admin_requests
    → Evolves env before after
unfolding get_admin_request closed
closing-Evolves env before after id req state decision sig found sound chain eq = record {
  keeps = λ i. record {
    distinct = rw eq (
        Distinct-update (λ r. r.id) _ (closed state decision sig) before.admin_requests (λ r. refl)
          i.distinct);
    sound = rw eq (
        All-update_found (λ r. r.id) (Sound env) (λ r. r.state == State.pending)
          (closed state decision sig) id before.admin_requests i.distinct i.sound found (sound i));
    chain = chain i.chain;
  };
  final =
      final_update before after (λ r. r.id == req.id && r.state == State.pending)
        (closed state decision sig) (λ r. refl)
        (λ r n. pending_false (r.id == req.id) (eq-false_of_ne r.state State.pending n)) eq;
}
  where
    pending_false : (a : Bool) {b : Bool} → b ≡ false → (a && b) ≡ false
    pending_false a e = ground arith
