-- ===== src/Identity.antt =====
-- src/backend/identity_id.go: the server-qualified ids of users, keys and reeds. Ids are texts; an
-- `identityID` is its text, so `String()` is the identity.
pub mod Format
use syrinx.Common.{
  ℕ, Char, String, Bool, true, false, ◌&&◌, ◌||◌, Option, none, some, ◌==◌, text_append, is_empty,
  split_last, trim_space, if◌then◌else◌, Result, ok, err, failed, or_fail, ◌>>=◌,
}

abbrev pub id_separator : Char
id_separator = "@"

abbrev pub entity_separator : Char
entity_separator = "/"

-- The optional entity is the variadic argument: at most one, as the type says.
unfoldable pub canonical_id : String → String → Option String → String
canonical_id server_id user_id entity =
    let id = text_append user_id (String.◌∷◌ id_separator server_id) in
    elim entity [
      | none ↦ id
      | some e ↦ if is_empty e then id else text_append id (String.◌∷◌ entity_separator e)
    ]

halves : Option (String × String) → Option (String × String)
halves none = none
halves (some (user_id, server_id)) =
    if is_empty user_id || is_empty server_id then none else some (user_id, server_id)

unfoldable pub parse_identity_id : String → Option (String × String)
unfolding halves
parse_identity_id id = halves (split_last id_separator id)

with_fingerprint : String → Option (String × String) → Option (String × String × String)
with_fingerprint fingerprint none = none
with_fingerprint fingerprint (some (user_id, server_id)) = some (user_id, server_id, fingerprint)

key_parts : Option (String × String) → Option (String × String × String)
unfolding with_fingerprint
key_parts none = none
key_parts (some (owner, fingerprint)) =
    if is_empty fingerprint then none else with_fingerprint fingerprint (parse_identity_id owner)

unfoldable pub parse_key_fingerprint : String → Option (String × String × String)
unfolding key_parts
parse_key_fingerprint id = key_parts (split_last entity_separator id)

unfoldable pub append_entity : String → String → String
append_entity user_identity entity_id =
    text_append user_identity (String.◌∷◌ entity_separator entity_id)

owner_id : Option (String × String × String) → Option String
owner_id none = none
owner_id (some (user_id, server_id, fingerprint)) = some (canonical_id server_id user_id none)

unfoldable pub author_of : String → Option String
unfolding owner_id
author_of id = owner_id (parse_key_fingerprint id)

-- `UserID()` and `ServerID()` panic on a malformed id.
unfoldable pub user_id : String → Result String
user_id id = do
  parts ← or_fail (parse_identity_id id) (failed "identity: malformed identityID")
  ok parts.0

unfoldable pub server_id : String → Result String
server_id id = do
  parts ← or_fail (parse_identity_id id) (failed "identity: malformed identityID")
  ok parts.1

-- `uuid.Parse` followed by its `String()` is the parameter `canonical_uuid`.
unfoldable pub parse_device_id : (String → Option String) → String → Result String
parse_device_id canonical_uuid raw =
    let trimmed = trim_space raw in
    if is_empty trimmed
    then err (failed "missing or invalid device id")
    else or_fail (canonical_uuid trimmed) (failed "missing or invalid device id")
