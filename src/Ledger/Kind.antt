-- ===== src/Ledger/Kind.antt =====
-- src/backend/ledger_chain.go: the `ledgerKind…` constants.
use syrinx.Common.{String}

abbrev pub request : String
request = "request"

abbrev pub admin_invite : String
admin_invite = "admin-invite"

abbrev pub mesh : String
mesh = "mesh"

abbrev pub server_key : String
server_key = "server-key"
