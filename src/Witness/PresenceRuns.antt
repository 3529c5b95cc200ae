-- ===== src/Witness/PresenceRuns.antt =====
-- A user who is online opens a verification window and pings it.
use syrinx.Common.{
  String, true, ◌&&◌, if◌then◌else◌, Option, none, some, [], ◌∷◌, ◌≡◌, ◌↔◌, refl, ok, err, refused,
  arith,
}
use syrinx.Presence.{
  Presence, set_window, put_window, taken, is_user_online, mark_user_offline,
  open_verification_window, ping_verification_window, close_verification_window,
  verification_window_open,
}
use syrinx.Presence.View.{shown, set, holds, restamp, is_fresh, is_named}
use syrinx.Presence.Invariant.{WellFormed}
use syrinx.Presence.Steps.{PresenceStep, PresenceSteps, PresenceSteps-WellFormed}
use syrinx.Presence.Refinement.{open_verification_window-shown, windows-shown}
use syrinx.Presence.Handlers.{verification_window_request, opened, handle_open, handle_ping}
use syrinx.Presence.Answers.{Refused, handle_open_refusals, open_then_ping}

abbrev before : Presence
before = record {
  online_users =
      record { user_id = "a@s"; last_pong = 90 } ∷ record { user_id = "b@s"; last_pong = 95 } ∷ [];
  verification_windows = record { id = "w1"; user_id = "a@s"; last_ping_at = 50 } ∷ [];
}

abbrev after : Presence
after = record before {
  verification_windows = record { id = "w2"; user_id = "a@s"; last_ping_at = 100 } ∷ [];
}

abbrev parse : String → Option String
parse id = some id

before-WellFormed : WellFormed before
unfolding is_user_online
before-WellFormed = record {
  online = ((refl, tt), (tt, tt));
  windows = (tt, tt);
  ids = (tt, tt);
  backed = (refl, tt);
}

opens_run : open_verification_window before "a@s" "w2" 100 ≡ ok (true, after)
unfolding open_verification_window is_user_online taken put_window set_window
opens_run = refl

handle_run : handle_open parse before "a@s" "w2" 100 ≡ ok after
unfolding handle_open verification_window_request opened open_verification_window is_user_online
    taken put_window set_window
handle_run = refl

open_verification_window-shown_example :
    (true ≡ is_user_online before "a@s")
    × (shown after.verification_windows
        ≡ set (shown before.verification_windows) "a@s" (some ("w2", 100)))
open_verification_window-shown_example =
    open_verification_window-shown before after "a@s" "w2" 100 true opens_run

windows-shown_example :
    let view = shown after.verification_windows in
    let v = view "a@s" in
    let alive = holds (λ v. is_named "w2" v && is_fresh 130 v) v in
    ((ping_verification_window after "a@s" "w2" 130).0 ≡ alive)
    × (shown (ping_verification_window after "a@s" "w2" 130).1.verification_windows
        ≡ set view "a@s" (if alive then restamp 130 v else v))
    × (shown (close_verification_window after "a@s" "w2").verification_windows
        ≡ set view "a@s" (if holds (is_named "w2") v then none else v))
    × (shown (mark_user_offline after "a@s").verification_windows ≡ set view "a@s" none)
    × (verification_window_open after "a@s" 130 ≡ holds (is_fresh 130) v)
windows-shown_example = windows-shown after "a@s" "w2" 130 (tt, tt)

-- Opened, pinged with another id, and closed.
PresenceSteps-WellFormed_example :
    WellFormed
      (close_verification_window (ping_verification_window after "b@s" "w2" 110).1 "a@s" "w2")
PresenceSteps-WellFormed_example = PresenceSteps-WellFormed before-WellFormed (
    PresenceSteps.more before after _
      (PresenceStep.opened before after "a@s" "w2" 100 true opens_run)
      (PresenceSteps.more after (ping_verification_window after "b@s" "w2" 110).1 _
        (PresenceStep.pinged after "b@s" "w2" 110)
        (PresenceSteps.more (ping_verification_window after "b@s" "w2" 110).1 _ _
          (PresenceStep.closed (ping_verification_window after "b@s" "w2" 110).1 "a@s" "w2")
          (PresenceSteps.done (
            close_verification_window (ping_verification_window after "b@s" "w2" 110).1 "a@s"
              "w2")))))

open_then_ping_example :
    (verification_window_open after "a@s" 150 ≡ true)
    × ((s'' : Presence) × (handle_ping parse after "a@s" "w2" 150 ≡ ok s''))
open_then_ping_example =
    open_then_ping parse before after "a@s" "w2" 100 150 before-WellFormed handle_run (ground arith)

handle_open_refusals_example :
    (handle_open parse before "c@s" "w2" 100
      ≡ err (refused 409 "Connect to the server to show your verification code"))
    ↔ Refused parse before "c@s" "w2"
        (refused 409 "Connect to the server to show your verification code")
handle_open_refusals_example =
    handle_open_refusals parse before "c@s" "w2" 100
      (refused 409 "Connect to the server to show your verification code")
