-- ===== src/Signing/Payloads.antt =====
-- src/backend/identity.go: the field sets of admin records, ledger entries and key revocations.
use syrinx.Common.{ℕ, String, Bool, List, [], ◌∷◌, nat_eq, if◌then◌else◌, Option, none, some}
use syrinx.Signing.{Value, text, number, flag, texts, timestamp, absent, Payload, canonical_json}

unfoldable pub server_key_revocation : String → String → String → Bool → String → ℕ → Payload
server_key_revocation server_id key_id successor compromised reason signed_at = canonical_json (
    ("type", text "server-key-revocation")
    ∷ ("serverID", text server_id)
    ∷ ("keyID", text key_id)
    ∷ ("successor", text successor)
    ∷ ("compromised", flag compromised)
    ∷ ("signedAt", timestamp signed_at)
    ∷ ("reason", text reason)
    ∷ [])

unfoldable pub admin_request :
    String → String → String → String → String → List String → String → ℕ → Payload
admin_request request_id action requester_id key_id reason targets body created_at =
    canonical_json (
      ("type", text "admin-request")
      ∷ ("requestID", text request_id)
      ∷ ("action", text action)
      ∷ ("requesterID", text requester_id)
      ∷ ("keyID", text key_id)
      ∷ ("reason", text reason)
      ∷ ("targets", texts targets)
      ∷ ("body", text body)
      ∷ ("createdAt", timestamp created_at)
      ∷ [])

unfoldable pub admin_decision : String → String → String → String → String → Payload
admin_decision request_id decision decider_id key_id request_signature = canonical_json (
    ("type", text "admin-decision")
    ∷ ("requestID", text request_id)
    ∷ ("decision", text decision)
    ∷ ("deciderID", text decider_id)
    ∷ ("keyID", text key_id)
    ∷ ("requestSignature", text request_signature)
    ∷ [])

unfoldable pub admin_request_opened : String → String → String → String → ℕ → Payload
admin_request_opened request_id request_signature server_id fingerprint signed_at = canonical_json (
    ("type", text "admin-request-opened")
    ∷ ("requestID", text request_id)
    ∷ ("requestSignature", text request_signature)
    ∷ ("serverID", text server_id)
    ∷ ("serverKeyFingerprint", text fingerprint)
    ∷ ("signedAt", timestamp signed_at)
    ∷ [])

unfoldable pub admin_request_server :
    String → String → String → String → String → String → ℕ → Payload
admin_request_server request_id state request_signature decision_signature server_id fingerprint
      signed_at =
    canonical_json (
      ("type", text "admin-request-server")
      ∷ ("requestID", text request_id)
      ∷ ("state", text state)
      ∷ ("requestSignature", text request_signature)
      ∷ ("decisionSignature", text decision_signature)
      ∷ ("serverID", text server_id)
      ∷ ("serverKeyFingerprint", text fingerprint)
      ∷ ("signedAt", timestamp signed_at)
      ∷ [])

-- An entry's `RequestedAt` is the zero time where no request stands behind it: none.
requested : Option ℕ → Value
requested none = text ""
requested (some t) = timestamp t

unfoldable pub ledger_entry :
    ℕ
    → ℕ
    → String
    → String
    → String
    → String
    → Option ℕ
    → String
    → String
    → List String
    → String
    → String
    → ℕ
    → Payload
unfolding requested
ledger_entry id prev_id prev_signature kind user_id requester_id requested_at message content
      targets server_id fingerprint signed_at =
    canonical_json (
      ("type", text "ledger-entry")
      ∷ ("id", number id)
      ∷ ("prevID", if nat_eq prev_id 0 then absent else number prev_id)
      ∷ ("prevSignature", text prev_signature)
      ∷ ("kind", text kind)
      ∷ ("userID", text user_id)
      ∷ ("requesterID", text requester_id)
      ∷ ("requestedAt", requested requested_at)
      ∷ ("message", text message)
      ∷ ("content", text content)
      ∷ ("targets", texts targets)
      ∷ ("serverID", text server_id)
      ∷ ("serverKeyFingerprint", text fingerprint)
      ∷ ("signedAt", timestamp signed_at)
      ∷ [])

unfoldable pub account_kick_server :
    String → String → String → String → String → String → ℕ → Payload
account_kick_server server_id user_id request_id request_signature decision_signature fingerprint
      signed_at =
    canonical_json (
      ("type", text "account-kick")
      ∷ ("serverID", text server_id)
      ∷ ("userID", text user_id)
      ∷ ("requestID", text request_id)
      ∷ ("requestSignature", text request_signature)
      ∷ ("decisionSignature", text decision_signature)
      ∷ ("serverKeyFingerprint", text fingerprint)
      ∷ ("signedAt", timestamp signed_at)
      ∷ [])

abbrev pub reason_lost : String
reason_lost = "lost"

unfoldable pub admin_revocation_server :
    String → String → String → String → String → String → String → ℕ → Payload
admin_revocation_server user_id key_id request_id request_signature decision_signature server_id
      fingerprint signed_at =
    canonical_json (
      ("type", text "admin-revocation")
      ∷ ("userID", text user_id)
      ∷ ("keyID", text key_id)
      ∷ ("reason", text reason_lost)
      ∷ ("requestID", text request_id)
      ∷ ("requestSignature", text request_signature)
      ∷ ("decisionSignature", text decision_signature)
      ∷ ("serverID", text server_id)
      ∷ ("serverKeyFingerprint", text fingerprint)
      ∷ ("signedAt", timestamp signed_at)
      ∷ [])

unfoldable pub profile :
    String
    → String
    → String
    → String
    → String
    → String
    → String
    → String
    → List String
    → String
    → ℕ
    → ℕ
    → Payload
profile user_id username key_id server_id fingerprint user_signature invite_id role permissions bio
      member_since signed_at =
    canonical_json (
      ("type", text "identity-server")
      ∷ ("userID", text user_id)
      ∷ ("username", text username)
      ∷ ("keyID", text key_id)
      ∷ ("memberSince", timestamp member_since)
      ∷ ("role", text role)
      ∷ ("permissions", texts permissions)
      ∷ ("serverID", text server_id)
      ∷ ("serverKeyFingerprint", text fingerprint)
      ∷ ("signedAt", timestamp signed_at)
      ∷ ("userSignature", text user_signature)
      ∷ ("inviteID", text invite_id)
      ∷ ("bio", text bio)
      ∷ [])

unfoldable pub public_key : String → String → String → String → String → ℕ → Payload
public_key server_id user_id user_key_id fingerprint armor signed_at = canonical_json (
    ("keyID", text user_key_id)
    ∷ ("serverID", text server_id)
    ∷ ("serverKeyFingerprint", text fingerprint)
    ∷ ("signedAt", timestamp signed_at)
    ∷ ("userID", text user_id)
    ∷ ("armor", text armor)
    ∷ [])
