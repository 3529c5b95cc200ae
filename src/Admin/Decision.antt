-- ===== src/Admin/Decision.antt =====
-- src/backend/admin.go: the `adminDecision…` constants.
use syrinx.Common.{String}

abbrev pub approve : String
approve = "approve"

abbrev pub reject : String
reject = "reject"

abbrev pub withdraw : String
withdraw = "withdraw"
