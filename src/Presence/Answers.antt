-- ===== src/Presence/Answers.antt =====
-- What the handlers of src/backend/verification_window.go answer.
use syrinx.Common.{
  ◌↔◌, ◌≢◌, any, not, ne_of_eq-false, eq-false_of_ne, ℕ, ◌+◌, ◌<◌, String, Bool, true, false, ◌&&◌,
  ◌==◌, Option, none, some, Option-cases, Bool-cases, inl, inr, ◌⊎◌, ◌≡◌, refl, sym, ap, ◌∙◌, arith,
  eq_iff, eq_refl, ok, err, ok_inj, err-ok, Result, Failure, refused, failed, ◌>>=◌, >>=-eq-ok, ltb,
}
use syrinx.Presence.{
  Presence, taken, is_user_online, open_verification_window, ping_verification_window,
  verification_window_open,
}
use syrinx.Presence.View.{shown, set, holds, is_named, is_fresh}
use syrinx.Presence.Refinement.{open_verification_window-shown, windows-shown}
use syrinx.Presence.Invariant.{WellFormed}
use syrinx.Presence.Windows.{open-WellFormed}
use syrinx.Presence.Handlers.{verification_window_request, opened, pinged, handle_open, handle_ping}

err_inj : {a b : Failure} → ◌≡◌ {A = Result Presence} (err a) (err b) → a ≡ b
err_inj e = ground arith

fresh_window :
    (s s' : Presence) (user id : String) (now later : ℕ)
    → WellFormed s
    → open_verification_window s user id now ≡ ok (true, s')
    → later < now + 60
    → (verification_window_open s' user later ≡ true)
      × ((ping_verification_window s' user id later).0 ≡ true)
unfolding set holds is_named is_fresh
fresh_window s s' user id now later w done soon =
    let (on, after) = open_verification_window-shown s s' user id now true done in
    let kept : WellFormed s' = open-WellFormed s s' user id now true w done in
    let now_shown : shown s'.verification_windows user ≡ some (id, now) =
      ap (λ view. view user) after ∙ rw (eq_refl user) refl in
    let (pings, v, c, o, fresh) = windows-shown s' user id later kept.windows in
    let live : ltb later (now + 60) ≡ true = ground (arith, soon) in
    (
      fresh ∙ ap (holds (is_fresh later)) now_shown ∙ live,
      pings
          ∙ ap (holds (λ v. is_named id v && is_fresh later v)) now_shown
          ∙ rw (eq_refl id, live) refl,
    )

module _ (parse_uuid : String → Option String) where
  -- Why a request to open fails, in the order of the handler's tests.
  abbrev pub Refused : Presence → String → String → Failure → Type 0
  Refused s user window_id e =
      ((user ≡ "") × (e ≡ refused 401 "Authentication required"))
      ⊎ ((user ≢ "")
          × (((parse_uuid window_id ≡ none) × (e ≡ refused 400 "The window id must be a UUID"))
              ⊎ ((id : String) × (parse_uuid window_id ≡ some id)
                  × (((is_user_online s user ≡ false)
                        × (e ≡ refused 409 "Connect to the server to show your verification code"))
                      ⊎ ((is_user_online s user ≡ true)
                          × (any (λ w. w.id == id && not (w.user_id == user)) s.verification_windows
                              ≡ true)
                          × (e ≡ failed "duplicate key value violates unique constraint"))))))

  handle_open-Refused :
      (s : Presence) (user window_id : String) (now : ℕ) (e : Failure)
      → handle_open parse_uuid s user window_id now ≡ err e
      → Refused s user window_id e
  unfolding handle_open verification_window_request opened open_verification_window taken
  handle_open-Refused s user window_id now e h = elim (Bool-cases (user == "")) [
    | inl t ↦ inl ((eq_iff user "").0 t, err_inj (sym (rw t at h)))
    | inr f ↦ inr (
      ne_of_eq-false user "" f,
      elim (Option-cases (parse_uuid window_id)) [
        | inl p ↦ inl (p, err_inj (sym (rw (f, p) at h)))
        | inr (id, p) ↦ inr (
          id,
          p,
          elim (Bool-cases (is_user_online s user)) [
            | inr off ↦ inl (off, err_inj (sym (rw (f, p, off) at h)))
            | inl on ↦ elim (Bool-cases (taken user id s.verification_windows)) [
              | inl t ↦ inr (on, t, err_inj (sym (rw (f, p, on, t) at h)))
              | inr free ↦ err-ok (sym (rw (f, p, on, free) at h))
            ]
          ],
        )
      ],
    )
  ]

  Refused-handle_open :
      (s : Presence) (user window_id : String) (now : ℕ) (e : Failure)
      → Refused s user window_id e
      → handle_open parse_uuid s user window_id now ≡ err e
  unfolding handle_open verification_window_request opened open_verification_window taken
  Refused-handle_open s user window_id now e = elim [
    | inl (nobody, what) ↦ rw (handle_open, (eq_iff user "").1 nobody) (ap err (sym what))
    | inr (n, inl (p, what)) ↦
        rw (handle_open, verification_window_request, eq-false_of_ne user "" n, p)
          (ap err (sym what))
    | inr (n, inr (id, p, inl (off, what))) ↦
        rw (handle_open, verification_window_request, eq-false_of_ne user "" n, p, off)
          (ap err (sym what))
    | inr (n, inr (id, p, inr (on, t, what))) ↦
        rw (handle_open, verification_window_request, eq-false_of_ne user "" n, p, on, t)
          (ap err (sym what))
  ]

  -- A request to open fails in exactly these ways, tested in this order: it is of nobody (401), it
  -- names no UUID (400), it is of someone offline (409), or its id is that of another user's
  -- window, which is a failure of the database.
  pub handle_open_refusals :
      (s : Presence) (user window_id : String) (now : ℕ) (e : Failure)
      → (handle_open parse_uuid s user window_id now ≡ err e) ↔ Refused s user window_id e
  handle_open_refusals s user window_id now e =
      (handle_open-Refused s user window_id now e, Refused-handle_open s user window_id now e)

  was_opened :
      (s s' : Presence) (user id : String) (now : ℕ) (b : Bool) (t : Presence)
      → open_verification_window s user id now ≡ ok (b, t)
      → opened parse_uuid (b, t) ≡ ok s'
      → open_verification_window s user id now ≡ ok (true, s')
  unfolding opened
  was_opened s s' user id now true t done fin = done ∙ ap (λ x. ok (true, x)) (ok_inj fin)
  was_opened s s' user id now false t done fin = err-ok fin

  opened_ok :
      (s s' : Presence) (user id : String) (now : ℕ)
      → (open_verification_window s user id now >>= opened parse_uuid) ≡ ok s'
      → open_verification_window s user id now ≡ ok (true, s')
  unfolding opened
  opened_ok s s' user id now h =
      let ((b, t), done, fin) = >>=-eq-ok (open_verification_window s user id now) _ h in
      was_opened s s' user id now b t done fin

  pinged_of : (r : Bool × Presence) → r.0 ≡ true → pinged parse_uuid r ≡ ok r.1
  unfolding pinged
  pinged_of (true, s) t = refl
  pinged_of (false, s) t = ground arith

  pinged_ok :
      (s : Presence) (user window_id id : String) (now : ℕ)
      → (user == "") ≡ false
      → parse_uuid window_id ≡ some id
      → (ping_verification_window s user id now).0 ≡ true
      → handle_ping parse_uuid s user window_id now ≡ ok (ping_verification_window s user id now).1
  unfolding handle_ping verification_window_request pinged
  pinged_ok s user window_id id now f p t =
      rw (handle_ping, verification_window_request, f, p)
        (pinged_of (ping_verification_window s user id now) t)

  -- On well-formed tables, after a request to open that is granted, the window counts as open and
  -- a ping of it is granted at any time less than 60 seconds later.
  pub open_then_ping :
      (s s' : Presence) (user window_id : String) (now later : ℕ)
      → WellFormed s
      → handle_open parse_uuid s user window_id now ≡ ok s'
      → later < now + 60
      → (verification_window_open s' user later ≡ true)
        × ((s'' : Presence) × (handle_ping parse_uuid s' user window_id later ≡ ok s''))
  unfolding handle_open handle_ping
  open_then_ping s s' user window_id now later w h soon = elim (Bool-cases (user == "")) [
    | inl t ↦ err-ok (rw (handle_open, verification_window_request, t) at h)
    | inr f ↦ elim (Option-cases (parse_uuid window_id)) [
      | inl p ↦ err-ok (rw (handle_open, verification_window_request, f, p) at h)
      | inr (id, p) ↦
          let h1 : (open_verification_window s user id now >>= opened parse_uuid) ≡ ok s' =
            rw (handle_open, verification_window_request, f, p) at h in
          let done = opened_ok s s' user id now h1 in
          let (is_open, answered) = fresh_window s s' user id now later w done soon in
          (
            is_open,
            (
              (ping_verification_window s' user id later).1,
              pinged_ok s' user window_id id later f p answered,
            ),
          )
    ]
  ]
