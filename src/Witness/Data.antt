-- ===== src/Witness/Data.antt =====
-- The tables and messages that the runs share.
use syrinx.Common.{ℕ, String, ◌==◌, true, false, none, some, [], ◌∷◌}
use syrinx.Roles.{role_root, role_admin, role_user}
use syrinx.Permissions.Perm
use syrinx.Signing.{Crypto}
use syrinx.Store.{ServerSignature, User, PublicKey, AdminDecision, AdminRequest, LedgerEntry, Db}
use syrinx.Admin.{Env}
use syrinx.Admin.Action
use syrinx.Admin.State
use syrinx.Admin.Decision
use syrinx.Admin.Open.{Message}
use syrinx.Admin.Decide.{Prepared}

-- A signature is the armor of the key that checks it; a private key signs with its own armor.
abbrev pub crypto : Crypto
crypto = record {
  verify_signature = λ payload armor key. armor == key;
  sign = λ payload armor. some armor;
  extract_fingerprint = λ armor. some armor;
}

abbrev pub env : Env
env = record {
  crypto = crypto;
  server_id = "s";
  fingerprint = "F";
  private_armor = "server";
  recovery_mode = "";
  max_invites_per_user = some 5;
  valid_uuid = λ id. true;
  count_characters = λ text. 4;
}

abbrev pub server_sig : ServerSignature
server_sig = record { key_id = "F@s"; armor = "server"; signed_at = 100 }

abbrev pub member : String → String → User
member id role = record {
  id = id;
  username = some id;
  role = role;
  bio = "";
  created_at = 1;
  invite_id = "";
  active_key_id = "";
  suspended_by = "";
  user_signature = some (record { key_id = ""; armor = "" });
  server_signature = some server_sig;
}

abbrev pub key_of : String → String → String → PublicKey
key_of id owner armor = record {
  id = id;
  owner = owner;
  armor = armor;
  created_at = 1;
  predecessor_id = "";
  restricted = false;
  server_signature = none;
}

abbrev pub start : Db
start = record {
  users = member "1@s" role_root ∷ member "a@s" role_admin ∷ member "b@s" role_user ∷ [];
  username_collisions = [];
  user_permissions = ("a@s", Perm.user_suspend) ∷ [];
  account_removals = [];
  public_keys = key_of "1@s/R" "1@s" "root key" ∷ key_of "a@s/A" "a@s" "admin key" ∷ [];
  key_revocations = [];
  invites = [];
  admin_requests = [];
  ledger_entries = [];
  next_ledger_id = 1;
  reeds = [];
  reed_identities = [];
  flag_cases = [];
  reed_flags = [];
  server_mesh = [];
  peer_event_queue = [];
  next_event_id = 1;
  signing_key_id = "F@s";
  first_boot_at = 0;
  active_users = 3;
}

abbrev pub message : Message
message = record {
  id = "r1";
  action = Action.suspend;
  requester_id = "a@s";
  reason = "spam";
  targets = "b@s" ∷ [];
  body = "";
  created_at = 100;
  signature = record { key_id = "a@s/A"; armor = "admin key" };
}

abbrev pub request : AdminRequest
request = record {
  id = "r1";
  action = Action.suspend;
  requester_id = "a@s";
  reason = "spam";
  targets = "b@s" ∷ [];
  dropped = [];
  body = "";
  created_at = 100;
  requester_signature = record { key_id = "a@s/A"; armor = "admin key" };
  requester_server_signature = server_sig;
  state = State.pending;
  decision = none;
  server_signature = none;
}

abbrev pub waiting : Db
waiting = record start { admin_requests = request ∷ [] }

-- Root approves.
abbrev pub approval : AdminDecision
approval = record {
  decision = Decision.approve;
  decider_id = "1@s";
  signature = record { key_id = "1@s/R"; armor = "root key" };
}

abbrev pub closing_sig : ServerSignature
closing_sig = record { key_id = "F@s"; armor = "server"; signed_at = 101 }

abbrev pub closed_request : AdminRequest
closed_request = record request {
  state = State.executed;
  decision = some approval;
  server_signature = some closing_sig;
}

abbrev pub entry : LedgerEntry
entry = record {
  id = 1;
  prev_id = 0;
  kind = "request";
  user_id = "1@s";
  requester_id = "a@s";
  requested_at = some 100;
  message = "[r1] Suspension. Reason: spam";
  content = "";
  targets = "b@s" ∷ [];
  server_signature = some closing_sig;
}

abbrev pub suspended : Db
suspended = record waiting {
  users =
      member "1@s" role_root
      ∷ member "a@s" role_admin
      ∷ record (member "b@s" role_user) { suspended_by = "r1" }
      ∷ [];
}

abbrev pub finished : Db
finished = record suspended {
  admin_requests = closed_request ∷ [];
  ledger_entries = entry ∷ [];
  next_ledger_id = 2;
}

abbrev pub prepared : Prepared
prepared = record {
  request_id = "r1";
  caller_id = "1@s";
  decision = approval;
  state = State.executed;
  approves = true;
  server_signature = closing_sig;
}

abbrev pub numbered : ℕ → ℕ → LedgerEntry
numbered id prev_id = record entry { id = id; prev_id = prev_id }

-- A chain with a gap in its numbers
abbrev pub three : Db
three = record start {
  ledger_entries = numbered 1 0 ∷ numbered 3 1 ∷ numbered 4 3 ∷ [];
  next_ledger_id = 5;
}
