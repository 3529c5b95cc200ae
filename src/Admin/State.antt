-- ===== src/Admin/State.antt =====
-- src/backend/admin.go: the `adminState…` constants.
use syrinx.Common.{String}

abbrev pub pending : String
pending = "pending"

abbrev pub executed : String
executed = "executed"

abbrev pub rejected : String
rejected = "rejected"

abbrev pub withdrawn : String
withdrawn = "withdrawn"

abbrev pub moot : String
moot = "moot"
