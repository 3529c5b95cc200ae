-- ===== src/Flags/Payloads.antt =====
-- The field sets of flags, withdrawals and dismissals (src/backend/identity.go).
use syrinx.Common.{ℕ, String, [], ◌∷◌}
use syrinx.Signing.{text, timestamp, Payload, canonical_json}

unfoldable pub reed_flag : String → String → String → String → Payload
reed_flag reed_id reporter_id key_id note = canonical_json (
    ("type", text "reed-flag")
    ∷ ("reedID", text reed_id)
    ∷ ("reporterID", text reporter_id)
    ∷ ("keyID", text key_id)
    ∷ ("note", text note)
    ∷ [])

unfoldable pub reed_flag_server : String → String → String → String → String → ℕ → Payload
reed_flag_server reed_id reporter_id case_id fingerprint user_signature signed_at = canonical_json (
    ("type", text "reed-flag")
    ∷ ("reedID", text reed_id)
    ∷ ("reporterID", text reporter_id)
    ∷ ("caseID", text case_id)
    ∷ ("signedAt", timestamp signed_at)
    ∷ ("serverKeyFingerprint", text fingerprint)
    ∷ ("userSignature", text user_signature)
    ∷ [])

unfoldable pub flag_dismissal : String → String → String → String → Payload
flag_dismissal case_id reed_id reason key_id = canonical_json (
    ("type", text "flag-dismissal")
    ∷ ("caseID", text case_id)
    ∷ ("reedID", text reed_id)
    ∷ ("reason", text reason)
    ∷ ("keyID", text key_id)
    ∷ [])

unfoldable pub flag_dismissal_server : String → String → String → String → ℕ → Payload
flag_dismissal_server case_id reed_id fingerprint user_signature signed_at = canonical_json (
    ("type", text "flag-dismissal")
    ∷ ("caseID", text case_id)
    ∷ ("reedID", text reed_id)
    ∷ ("signedAt", timestamp signed_at)
    ∷ ("serverKeyFingerprint", text fingerprint)
    ∷ ("userSignature", text user_signature)
    ∷ [])

unfoldable pub flag_withdrawal : String → String → String → String → Payload
flag_withdrawal reed_id reporter_id key_id flag_signature = canonical_json (
    ("type", text "flag-withdrawal")
    ∷ ("reedID", text reed_id)
    ∷ ("reporterID", text reporter_id)
    ∷ ("keyID", text key_id)
    ∷ ("flagSignature", text flag_signature)
    ∷ [])

unfoldable pub flag_withdrawal_server : String → String → String → String → ℕ → Payload
flag_withdrawal_server reed_id reporter_id fingerprint user_signature signed_at = canonical_json (
    ("type", text "flag-withdrawal")
    ∷ ("reedID", text reed_id)
    ∷ ("reporterID", text reporter_id)
    ∷ ("signedAt", timestamp signed_at)
    ∷ ("serverKeyFingerprint", text fingerprint)
    ∷ ("userSignature", text user_signature)
    ∷ [])
