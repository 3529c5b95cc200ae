-- ===== src/Ledger.antt =====
-- src/backend/ledger_chain.go and ledger.go: the public, chained ledger of admin actions.
pub mod Kind
pub mod Chain
pub mod Pages
use syrinx.Common.{
  ℕ, zero, suc, ◌+◌, String, Bool, true, false, not, ◌&&◌, ◌||◌, ◌==◌, if◌then◌else◌, nat_eq,
  Option, none, some, List, [], ◌∷◌, ◌++◌, Result, ok, err, failed, ◌>>=◌, find, any, sort,
  text_append,
}
use syrinx.Identity.{canonical_id}
use syrinx.Signing.{Payload}
use syrinx.Signing.Payloads
use syrinx.Store.{ServerSignature, LedgerEntry, AdminRequest, Db}
use syrinx.Admin.{Env, countersign}
use syrinx.Admin.Action

-- fmt.Sprintf with %s alone: the pieces one after another.
concat : List String → String
concat [] = ""
concat (s ∷ ss) = text_append s (concat ss)

abbrev pub LedgerSigner : Type 0
LedgerSigner = Payload → ℕ → Result ServerSignature

has_next : List LedgerEntry → ℕ → Bool
has_next entries id = any (λ n. nat_eq n.prev_id id) entries

-- The entry that no other follows.
unfoldable pub last_entry : List LedgerEntry → Option LedgerEntry
unfolding has_next
last_entry entries = find (λ e. not (has_next entries e.id)) entries

prev_id_of : Option LedgerEntry → ℕ
prev_id_of none = 0
prev_id_of (some e) = e.id

armor_of : Option ServerSignature → String
armor_of none = ""
armor_of (some s) = s.armor

prev_signature_of : Option LedgerEntry → String
unfolding armor_of
prev_signature_of none = ""
prev_signature_of (some e) = armor_of e.server_signature

-- The entry's id and prev_id, and its targets sorted.
unfoldable number_entry : ℕ → Option LedgerEntry → LedgerEntry → LedgerEntry
unfolding prev_id_of
number_entry id last e = record e { id = id; prev_id = prev_id_of last; targets = sort e.targets }

-- The INSERT, which takes the number from the sequence.
unfoldable insert_entry : Db → LedgerEntry → Db
insert_entry db stored = record db {
  ledger_entries = db.ledger_entries ++ stored ∷ [];
  next_ledger_id = db.next_ledger_id + 1;
}

-- appendLedgerEntryTx. The advisory lock makes each call see the entries of all before it.
-- The sequence is taken back with the rest of the transaction; a real one leaves a gap.
unfoldable pub append_ledger_entry :
    Db → LedgerSigner → String → String → ℕ → LedgerEntry → Result (Db × LedgerEntry)
unfolding last_entry prev_signature_of number_entry insert_entry
append_ledger_entry db sign server_id fingerprint now e =
    if not (db.signing_key_id == canonical_id server_id fingerprint none)
    then err (failed "ledger signer is no longer the server's signing key")
    else (let last = last_entry db.ledger_entries in
        let numbered = number_entry db.next_ledger_id last e in
        sign
          (Payloads.ledger_entry numbered.id numbered.prev_id (prev_signature_of last) e.kind
            e.user_id e.requester_id e.requested_at e.message e.content numbered.targets server_id
            fingerprint now)
          now
        >>= λ sig.
            let stored = record numbered { server_signature = some sig } in
            ok (insert_entry db stored, stored))

-- appendLedgerTx of the handlers
unfoldable pub append_ledger : Env → ℕ → Db → LedgerEntry → Result (Db × LedgerEntry)
append_ledger env now db e =
    append_ledger_entry db (countersign env) env.server_id env.fingerprint now e

-- ledgerActionNames; "" for an action that has none.
action_name : String → String
action_name action =
    if action == Action.suspend
    then "Suspension"
    else if action == Action.reinstate
    then "Reinstatement"
    else if action == Action.kick
    then "Kick"
    else if action == Action.promote
    then "Promotion"
    else if action == Action.demote
    then "Demotion"
    else if action == Action.permissions
    then "Permission change"
    else ""

approved_message : AdminRequest → String → String
unfolding concat action_name
approved_message req rebind_key_id =
    if req.action == Action.broadcast
    then concat ("[" ∷ req.id ∷ "] Broadcast" ∷ [])
    else if req.action == Action.rebind
    then concat ("[" ∷ req.id ∷ "] Key rebind to " ∷ rebind_key_id ∷ ". Reason: " ∷ req.reason ∷ [])
    else if req.action == Action.invites
    then concat ("[" ∷ req.id ∷ "] Invite grant: " ∷ req.body ∷ " more. Reason: " ∷ req.reason ∷ [])
    else concat ("[" ∷ req.id ∷ "] " ∷ action_name req.action ∷ ". Reason: " ∷ req.reason ∷ [])

approved_content : AdminRequest → String
approved_content req =
    if req.action == Action.broadcast
      || req.action == Action.promote
      || req.action == Action.permissions
    then req.body
    else ""

-- ledgerApprovedEntry; the entry's number and signature are set when it is appended.
unfoldable pub ledger_approved_entry : AdminRequest → String → String → Option LedgerEntry
unfolding approved_message approved_content
ledger_approved_entry req approver_id rebind_key_id =
    if req.action == Action.unicast
    then none
    else some (record {
      id = 0;
      prev_id = 0;
      kind = Kind.request;
      user_id = approver_id;
      requester_id = req.requester_id;
      requested_at = some req.requester_server_signature.signed_at;
      message = approved_message req rebind_key_id;
      content = approved_content req;
      targets = req.targets;
      server_signature = none;
    })
