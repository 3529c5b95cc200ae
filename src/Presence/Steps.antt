-- ===== src/Presence/Steps.antt =====
-- What changes online_users and verification_windows, as a step relation: the operations of
-- src/backend/verification_window.go and those of src/backend/services.go on presence.
use syrinx.Common.{ℕ, String, Bool, List, ok, ◌≡◌}
use syrinx.Presence.{
  Presence, mark_user_online, mark_user_offline, record_pongs, evict_stale_presence,
  open_verification_window, ping_verification_window, close_verification_window,
}
use syrinx.Presence.Invariant.{
  WellFormed, mark_user_online-WellFormed, mark_user_offline-WellFormed, record_pongs-WellFormed,
  evict_stale_presence-WellFormed,
}
use syrinx.Presence.Windows.{open-WellFormed, ping-WellFormed, close-WellFormed}

pub data PresenceStep : Presence → Presence → Type 0 where
  opened :
      (s s' : Presence) (user_id id : String) (now : ℕ) (answer : Bool)
      → open_verification_window s user_id id now ≡ ok (answer, s')
      → PresenceStep s s'
  pinged :
      (s : Presence) (user_id id : String) (now : ℕ)
      → PresenceStep s (ping_verification_window s user_id id now).1
  closed :
      (s : Presence) (user_id id : String) → PresenceStep s (close_verification_window s user_id id)
  online :
      (s : Presence) (user_id : String) (now : ℕ) → PresenceStep s (mark_user_online s user_id now)
  offline : (s : Presence) (user_id : String) → PresenceStep s (mark_user_offline s user_id)
  ponged :
      (s : Presence) (users : List String) (now : ℕ) → PresenceStep s (record_pongs s users now).1
  evicted :
      (s : Presence) (user_id : String) (now ttl : ℕ)
      → PresenceStep s (evict_stale_presence s user_id now ttl).1

pub data PresenceSteps : Presence → Presence → Type 0 where
  done : (s : Presence) → PresenceSteps s s
  more : (s t u : Presence) → PresenceStep s t → PresenceSteps t u → PresenceSteps s u

PresenceStep-WellFormed : {s t : Presence} → WellFormed s → PresenceStep s t → WellFormed t
PresenceStep-WellFormed w (opened s s' user_id id now answer h) =
    open-WellFormed s s' user_id id now answer w h
PresenceStep-WellFormed w (pinged s user_id id now) = ping-WellFormed s user_id id now w
PresenceStep-WellFormed w (closed s user_id id) = close-WellFormed s user_id id w
PresenceStep-WellFormed w (online s user_id now) = mark_user_online-WellFormed s user_id now w
PresenceStep-WellFormed w (offline s user_id) = mark_user_offline-WellFormed s user_id w
PresenceStep-WellFormed w (ponged s users now) = record_pongs-WellFormed s users now w
PresenceStep-WellFormed w (evicted s user_id now ttl) =
    evict_stale_presence-WellFormed s user_id now ttl w

-- From tables in which each user has one presence row and at most one window, window ids differ
-- and a window's user is online, any sequence of openings that answer, pings, closings, users
-- going online or offline, pongs and evictions leads to such tables.
pub PresenceSteps-WellFormed : {s t : Presence} → WellFormed s → PresenceSteps s t → WellFormed t
PresenceSteps-WellFormed w (done s) = w
PresenceSteps-WellFormed w (more s t u step steps) =
    PresenceSteps-WellFormed (PresenceStep-WellFormed w step) steps
