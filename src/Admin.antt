-- ===== src/Admin.antt =====
-- src/backend/admin.go: admin requests. An admin opens a request, a second one decides on it.
-- The handlers' environment: the configuration, the signing key and what third-party packages do.
pub mod Action
pub mod State
pub mod Decision
pub mod Rules
pub mod Executors
pub mod Validate
pub mod Open
pub mod Decide
pub mod Moot
pub mod Steps
pub mod Foreign
use syrinx.Common.{
  ℕ, ◌+◌, ◌≤◌, suc, String, Char, code, Bool, true, false, not, ◌&&◌, ◌||◌, ◌==◌, if◌then◌else◌,
  Option, none, some, List, [], ◌∷◌, Result, ok, err, failed, or_fail, ◌>>=◌, ltb, leb,
}
use syrinx.Identity.{canonical_id}
use syrinx.Signing.{Crypto, Payload}
use syrinx.Store.{ServerSignature, AdminRequest, Db}

-- `valid_uuid` is uuid.Parse, `count_characters` is uniseg's count of grapheme clusters.
-- `max_invites_per_user` is none for maxInvitesUnlimited.
pub record Env : Type 0 where
  pub crypto : Crypto
  pub server_id : String
  pub fingerprint : String
  pub private_armor : String
  pub recovery_mode : String
  pub max_invites_per_user : Option ℕ
  pub valid_uuid : String → Bool
  pub count_characters : String → ℕ

-- countersign: the signature is by this server's key, at the time given.
unfoldable pub countersign : Env → Payload → ℕ → Result ServerSignature
countersign env payload ts = do
  armor ← or_fail (env.crypto.sign payload env.private_armor) (failed "countersign")
  ok (record {
    key_id = canonical_id env.server_id env.fingerprint none;
    armor = armor;
    signed_at = ts;
  })

-- A character's UTF-16 units.
utf16_length : String → ℕ
utf16_length String.[] = 0
utf16_length (String.◌∷◌ c s) = (if ltb (code c) 0x10000 then 1 else 2) + utf16_length s

abbrev pub max_long_text_chars : ℕ
max_long_text_chars = 420

abbrev pub max_long_text_raw_chars : ℕ
max_long_text_raw_chars = 1400

-- longTextFits, of utils.go
unfoldable pub long_text_fits : Env → String → Bool
unfolding utf16_length
long_text_fits env s =
    leb (env.count_characters s) max_long_text_chars && leb (utf16_length s) max_long_text_raw_chars

-- recovering, of middlewares.go
unfoldable pub recovering : String → Bool
recovering mode = mode == "lockdown" || mode == "operational"

-- openedBeforeRecovery, of admin_records.go
unfoldable pub opened_before_recovery : Env → Db → AdminRequest → Bool
unfolding recovering
opened_before_recovery env db req =
    recovering env.recovery_mode && ltb req.created_at db.first_boot_at
