-- ===== src/Store.antt =====
-- The database tables that admin actions read and write (src/backend/db.go): one record for each
-- row, in the fields that the code reads. A text column that may be NULL and that the code reads
-- through COALESCE or NullString is a text, "" for NULL. Signatures stand in the rows that own them.
pub mod Queries
pub mod PeerEvents
pub mod Flags
use syrinx.Common.{ℕ, String, Bool, Option, List}

pub record UserSignature : Type 0 where
  pub key_id : String
  pub armor : String

pub record ServerSignature : Type 0 where
  pub key_id : String
  pub armor : String
  pub signed_at : ℕ

pub record User : Type 0 where
  pub id : String
  pub username : Option String
  pub role : String
  pub bio : String
  pub created_at : ℕ
  pub invite_id : String
  pub active_key_id : String
  pub suspended_by : String
  pub user_signature : Option UserSignature
  pub server_signature : Option ServerSignature

-- A public key; a peer's has no owner.
pub record PublicKey : Type 0 where
  pub id : String
  pub owner : String
  pub armor : String
  pub created_at : ℕ
  pub predecessor_id : String
  pub restricted : Bool
  pub server_signature : Option ServerSignature

pub record KeyRevocation : Type 0 where
  pub key_id : String
  pub reason : String
  pub admin_request_id : String
  pub successor : String
  pub server_signature : ServerSignature

pub record Invite : Type 0 where
  pub id : String
  pub created_by : String
  pub granted_role : String
  pub claimed_at : Option ℕ
  pub revoked_at : Option ℕ

-- Signed by the user, by this server's admin request, or by a peer's, of which the id is kept here.
pub record AccountRemoval : Type 0 where
  pub user_id : String
  pub note : String
  pub user_signature : Option UserSignature
  pub admin_request_id : String
  pub admin_authorization : String
  pub server_signature : ServerSignature

pub record AdminDecision : Type 0 where
  pub decision : String
  pub decider_id : String
  pub signature : UserSignature

-- adminRequest, as it is stored and loaded with its content and targets.
pub record AdminRequest : Type 0 where
  pub id : String
  pub action : String
  pub requester_id : String
  pub reason : String
  pub targets : List String
  pub dropped : List String
  pub body : String
  pub created_at : ℕ
  pub requester_signature : UserSignature
  pub requester_server_signature : ServerSignature
  pub state : String
  pub decision : Option AdminDecision
  pub server_signature : Option ServerSignature

-- ledgerEntry; `prev_id` is 0 on the first entry, `requested_at` is none for the zero time.
pub record LedgerEntry : Type 0 where
  pub id : ℕ
  pub prev_id : ℕ
  pub kind : String
  pub user_id : String
  pub requester_id : String
  pub requested_at : Option ℕ
  pub message : String
  pub content : String
  pub targets : List String
  pub server_signature : Option ServerSignature

pub record Reed : Type 0 where
  pub id : String
  pub user_id : String
  pub signed_at : ℕ
  pub published_at : Option ℕ

pub record ReedIdentity : Type 0 where
  pub id : String
  pub server_id : String
  pub author_id : String

-- A dismissal's columns are NULL together: who dismissed it ("" once their account is gone), why, and
-- the two signatures.
pub record FlagDismissal : Type 0 where
  pub dismissed_by : String
  pub reason : String
  pub signature : UserSignature
  pub server_signature : ServerSignature

pub record FlagCase : Type 0 where
  pub id : String
  pub reed_id : String
  pub opened_at : ℕ
  pub restored : Bool
  pub dismissal : Option FlagDismissal
  pub voided_at : Option ℕ

pub record FlagWithdrawal : Type 0 where
  pub signature : UserSignature
  pub server_signature : ServerSignature

-- created_at is the countersignature's time.
pub record ReedFlag : Type 0 where
  pub reed_id : String
  pub author_id : String
  pub reporter_id : String
  pub note : String
  pub case_id : String
  pub signature : UserSignature
  pub server_signature : ServerSignature
  pub withdrawal : Option FlagWithdrawal

-- A row of server_mesh, with base_url from its row of servers, "" for NULL.
pub record Peer : Type 0 where
  pub server_id : String
  pub base_url : String
  pub revoked_at : Option ℕ
  pub down_at : Option ℕ
  pub delivery_claimed_at : Option ℕ

pub record PeerEvent : Type 0 where
  pub id : ℕ
  pub server_id : String
  pub kind : String
  pub subject_id : String
  pub object_id : Option String

pub record Db : Type 0 where
  pub users : List User
  pub username_collisions : List (String × String)
  pub user_permissions : List (String × String)
  pub account_removals : List AccountRemoval
  pub public_keys : List PublicKey
  pub key_revocations : List KeyRevocation
  pub invites : List Invite
  pub admin_requests : List AdminRequest
  pub ledger_entries : List LedgerEntry
  pub next_ledger_id : ℕ
  pub reeds : List Reed
  pub reed_identities : List ReedIdentity
  pub flag_cases : List FlagCase
  pub reed_flags : List ReedFlag
  pub server_mesh : List Peer
  pub peer_event_queue : List PeerEvent
  pub next_event_id : ℕ
  pub signing_key_id : String
  pub first_boot_at : ℕ
  pub active_users : ℕ
