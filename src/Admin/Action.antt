-- ===== src/Admin/Action.antt =====
-- src/backend/admin.go: the `adminAction…` constants.
use syrinx.Common.{String}

abbrev pub suspend : String
suspend = "suspend"

abbrev pub reinstate : String
reinstate = "reinstate"

abbrev pub kick : String
kick = "kick"

abbrev pub promote : String
promote = "promote"

abbrev pub demote : String
demote = "demote"

abbrev pub permissions : String
permissions = "permissions"

abbrev pub rebind : String
rebind = "rebind"

abbrev pub invites : String
invites = "invites"

abbrev pub broadcast : String
broadcast = "broadcast"

abbrev pub unicast : String
unicast = "unicast"
