-- ===== src/Presence.antt =====
-- Who is online, and the verification windows that go with it: the tables online_users and
-- verification_windows, src/backend/verification_window.go and the presence operations of
-- src/backend/services.go. Times are in seconds. What a user going offline leaves of pending events
-- and subscriptions is not part of this state.
pub mod Handlers
pub mod View
pub mod Refinement
pub mod Invariant
pub mod Windows
pub mod Steps
pub mod Answers
use syrinx.Common.{
  ℕ, ◌+◌, String, Bool, true, false, ◌&&◌, not, ◌==◌, if◌then◌else◌, List, [], ◌∷◌, ◌++◌, map, any,
  select, update, contains, ltb, Result, ok, err, failed,
}

pub record OnlineUser : Type 0 where
  pub user_id : String
  pub last_pong : ℕ

pub record Window : Type 0 where
  pub id : String
  pub user_id : String
  pub last_ping_at : ℕ

pub record Presence : Type 0 where
  pub online_users : List OnlineUser
  pub verification_windows : List Window

-- time.Minute
abbrev pub verification_window_ttl : ℕ
verification_window_ttl = 60

-- IsUserOnline
unfoldable pub is_user_online : Presence → String → Bool
is_user_online s user_id = any (λ u. u.user_id == user_id) s.online_users

unfoldable pub set_pong : ℕ → OnlineUser → OnlineUser
set_pong now u = record u { last_pong = now }

-- MarkUserOnline
unfoldable pub mark_user_online : Presence → String → ℕ → Presence
unfolding set_pong is_user_online
mark_user_online s user_id now = record s {
  online_users =
      if is_user_online s user_id
      then update (λ u. u.user_id == user_id) (set_pong now) s.online_users
      else s.online_users ++ record { user_id = user_id; last_pong = now } ∷ [];
}

-- MarkUserOffline: deleting the presence row cascades to the user's window.
unfoldable pub mark_user_offline : Presence → String → Presence
mark_user_offline s user_id = record {
  online_users = select (λ u. not (u.user_id == user_id)) s.online_users;
  verification_windows = select (λ w. not (w.user_id == user_id)) s.verification_windows;
}

-- RecordPongs: who still had a row
unfoldable pub record_pongs : Presence → List String → ℕ → List String × Presence
unfolding set_pong
record_pongs s user_ids now =
    let ponged = λ (u : OnlineUser). contains user_ids u.user_id in
    (
      map (λ u. u.user_id) (select ponged s.online_users),
      record s { online_users = update ponged (set_pong now) s.online_users },
    )

unfoldable pub stale : ℕ → ℕ → OnlineUser → Bool
stale now ttl u = ltb (u.last_pong + ttl) now

-- StalePresence
unfoldable pub stale_presence : Presence → ℕ → ℕ → List String
unfolding stale
stale_presence s now ttl = map (λ u. u.user_id) (select (stale now ttl) s.online_users)

-- EvictStalePresence
unfoldable pub evict_stale_presence : Presence → String → ℕ → ℕ → Bool × Presence
unfolding stale mark_user_offline
evict_stale_presence s user_id now ttl =
    if any (λ u. u.user_id == user_id && stale now ttl u) s.online_users
    then (true, mark_user_offline s user_id)
    else (false, s)

unfoldable pub set_window : String → ℕ → Window → Window
set_window id now w = record w { id = id; last_ping_at = now }

-- INSERT … ON CONFLICT (user_id) DO UPDATE
unfoldable pub put_window : String → String → ℕ → List Window → List Window
unfolding set_window
put_window user_id id now windows =
    if any (λ w. w.user_id == user_id) windows
    then update (λ w. w.user_id == user_id) (set_window id now) windows
    else windows ++ record { id = id; user_id = user_id; last_ping_at = now } ∷ []

unfoldable pub taken : String → String → List Window → Bool
taken user_id id windows = any (λ w. w.id == id && not (w.user_id == user_id)) windows

-- DataService.OpenVerificationWindow; the id of another user's window violates the primary key.
unfoldable pub open_verification_window : Presence → String → String → ℕ → Result (Bool × Presence)
unfolding is_user_online put_window taken
open_verification_window s user_id id now =
    if not (is_user_online s user_id)
    then ok (false, s)
    else if taken user_id id s.verification_windows
    then err (failed "duplicate key value violates unique constraint")
    else ok
        (true, record s { verification_windows = put_window user_id id now s.verification_windows })

unfoldable pub live : ℕ → Window → Bool
live now w = ltb now (w.last_ping_at + verification_window_ttl)

unfoldable pub own_window : String → String → ℕ → Window → Bool
unfolding live
own_window user_id id now w = w.id == id && w.user_id == user_id && live now w

unfoldable pub set_ping : ℕ → Window → Window
set_ping now w = record w { last_ping_at = now }

-- DataService.PingVerificationWindow
unfoldable pub ping_verification_window : Presence → String → String → ℕ → Bool × Presence
unfolding own_window set_ping
ping_verification_window s user_id id now = (
  any (own_window user_id id now) s.verification_windows,
  record s {
    verification_windows = update (own_window user_id id now) (set_ping now) s.verification_windows;
  },
)

-- DataService.CloseVerificationWindow
unfoldable pub close_verification_window : Presence → String → String → Presence
close_verification_window s user_id id = record s {
  verification_windows =
      select (λ w. not (w.id == id && w.user_id == user_id)) s.verification_windows;
}

-- VerificationWindowOpen
unfoldable pub verification_window_open : Presence → String → ℕ → Bool
unfolding live
verification_window_open s user_id now =
    any (λ w. w.user_id == user_id && live now w) s.verification_windows
