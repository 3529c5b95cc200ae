-- ===== src/Permissions/Perm.antt =====
-- src/backend/admin.go: the `perm…` constants.
use syrinx.Common.{String}

abbrev pub admin_create : String
admin_create = "admin.create"

abbrev pub admin_demote : String
admin_demote = "admin.demote"

abbrev pub user_kick : String
user_kick = "user.kick"

abbrev pub user_suspend : String
user_suspend = "user.suspend"

abbrev pub user_rebind : String
user_rebind = "user.rebind"

abbrev pub user_invites : String
user_invites = "user.invites"

abbrev pub message_unicast : String
message_unicast = "message.unicast"

abbrev pub message_broadcast : String
message_broadcast = "message.broadcast"

abbrev pub mesh_invite : String
mesh_invite = "mesh.invite"

abbrev pub mesh_connect : String
mesh_connect = "mesh.connect"

abbrev pub mesh_disconnect : String
mesh_disconnect = "mesh.disconnect"
