-- ===== src/Presence/Handlers.antt =====
-- The handlers of src/backend/verification_window.go: a refusal with its status, or the tables after
-- a 204. uuid.Parse(…).String() is a parameter.
use syrinx.Common.{
  ℕ, String, Bool, true, false, ◌==◌, Option, Result, ok, err, refused, ◌>>=◌, ◌>>◌, refuse_if,
  or_fail,
}
use syrinx.Presence.{
  Presence, open_verification_window, ping_verification_window, close_verification_window,
}

module _ (parse_uuid : String → Option String) where
  -- verificationWindowRequest
  unfoldable pub verification_window_request : String → String → Result (String × String)
  verification_window_request user_id window_id =
      refuse_if (user_id == "") (refused 401 "Authentication required")
      >> or_fail (parse_uuid window_id) (refused 400 "The window id must be a UUID")
      >>= λ id. ok (user_id, id)

  unfoldable pub opened : Bool × Presence → Result Presence
  opened (true, s) = ok s
  opened (false, s) = err (refused 409 "Connect to the server to show your verification code")

  -- Handlers.OpenVerificationWindow
  unfoldable pub handle_open : Presence → String → String → ℕ → Result Presence
  unfolding verification_window_request opened
  handle_open s user_id window_id now =
      verification_window_request user_id window_id >>= λ (user, id).
      open_verification_window s user id now >>= opened

  unfoldable pub pinged : Bool × Presence → Result Presence
  pinged (true, s) = ok s
  pinged (false, s) = err (refused 404 "Verification window not open")

  -- Handlers.PingVerificationWindow
  unfoldable pub handle_ping : Presence → String → String → ℕ → Result Presence
  unfolding verification_window_request pinged
  handle_ping s user_id window_id now =
      verification_window_request user_id window_id >>= λ (user, id).
      pinged (ping_verification_window s user id now)

  -- Handlers.CloseVerificationWindow
  unfoldable pub handle_close : Presence → String → String → Result Presence
  unfolding verification_window_request
  handle_close s user_id window_id = verification_window_request user_id window_id >>= λ (user, id).
      ok (close_verification_window s user id)
