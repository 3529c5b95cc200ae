-- ===== src/Signing.antt =====
-- src/backend/identity.go and canonicalJSON of src/backend/utils.go: what is signed is a field set.
-- Serializing it (RFC 8785, a third-party package) and OpenPGP are the parameter `Crypto`; a payload
-- here is the field set that is serialized.
pub mod Payloads
pub mod Fields
use syrinx.Common.{
  ℕ, String, Bool, true, false, not, ◌==◌, if◌then◌else◌, Option, List, [], ◌∷◌, select, is_empty,
}

-- A signed field's value; `timestamp` is a time in whole seconds, which signedTime formats.
pub data Value : Type 0 where
  text : String → Value
  number : ℕ → Value
  flag : Bool → Value
  texts : List String → Value
  timestamp : ℕ → Value
  absent : Value

abbrev pub Payload : Type 0
Payload = List (String × Value)

unfoldable pub is_empty_signed_value : Value → Bool
is_empty_signed_value absent = true
is_empty_signed_value (text s) = is_empty s
is_empty_signed_value (texts []) = true
is_empty_signed_value (texts (x ∷ xs)) = false
is_empty_signed_value _ = false

-- Empty values are dropped, so that absent and empty sign the same.
unfoldable pub canonical_json : Payload → Payload
unfolding is_empty_signed_value
canonical_json fields = select (λ f. not (is_empty_signed_value f.1)) fields

-- OpenPGP, through src/backend/crypto.go: a signature is checked against a payload and a public
-- key's armor, made with a private key's; an armor that parses has a fingerprint.
pub record Crypto : Type 0 where
  pub verify_signature : Payload → String → String → Bool
  pub sign : Payload → String → Option String
  pub extract_fingerprint : String → Option String

-- The value of a field, `absent` where the payload has none.
unfoldable pub value : String → Payload → Value
value k [] = absent
value k ((j, v) ∷ fields) = if j == k then v else value k fields
