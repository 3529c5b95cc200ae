-- ===== src/Presence/Refinement.antt =====
-- The operations of src/backend/verification_window.go as updates of the view of the windows.
use syrinx.Common.{
  ℕ, String, Bool, true, false, ◌&&◌, not, ◌==◌, if◌then◌else◌, Option, none, some, List, any,
  update, Distinct, and-true, Bool-cases, inl, inr, ◌≡◌, refl, sym, subst, ◌∙◌, arith, text_cases,
  eq-false_of_ne, ne_of_eq-false, ok, ok_pair_inj, if_ok, err-ok, Result, eq_refl,
}
use mathlib.Core.Path.{fun_ext}
use syrinx.Presence.{
  Window, Presence, set_window, put_window, taken, live, own_window, set_ping, mark_user_offline,
  is_user_online, open_verification_window, ping_verification_window, close_verification_window,
  verification_window_open,
}
use syrinx.Presence.View.{
  View, shown, set, holds, restamp, is_fresh, is_named, touch, update_other, select_other,
  append_other, append_self, update_self, any-shown, shown-update, shown-select,
}

-- A new view is the old one but for the user.
set-eq :
    (view new : View) (user : String) (value : Option (String × ℕ))
    → new user ≡ value
    → ((other : String) → (other == user) ≡ false → new other ≡ view other)
    → new ≡ set view user value
unfolding set
set-eq view new user value self others = fun_ext λ other. elim (text_cases other user) [
  | inl (e, t) ↦ rw (t, e) self
  | inr (n, f) ↦ rw f (others other f)
]

swapped : (s t : String) → (s == t) ≡ false → (t == s) ≡ false
swapped s t n = eq-false_of_ne t s (λ e. ne_of_eq-false s t n (sym e))

put-shown :
    (user id : String) (now : ℕ) (ws : List Window)
    → shown (put_window user id now ws) ≡ set (shown ws) user (some (id, now))
unfolding put_window set_window touch
put-shown user id now ws = elim (Bool-cases (any (λ w. w.user_id == user) ws)) [
  | inl t ↦ rw t (
      set-eq (shown ws) (shown (update (λ w. w.user_id == user) (set_window id now) ws)) user
        (some (id, now)) (update_self user id now ws t)
        (λ other n. update_other user (λ w. w.user_id == user) (λ w. id) now ws other (λ w s. s) n))
  | inr f ↦ rw f (
      set-eq (shown ws) _ user (some (id, now))
        (append_self user (record { id = id; user_id = user; last_ping_at = now }) ws (eq_refl user)
          f)
        (λ other n.
          append_other user (record { id = id; user_id = user; last_ping_at = now }) ws other
            (swapped other user n)))
]

false_of_not : (b : Bool) → not b ≡ true → false ≡ b
false_of_not b h = ground arith

true_of_not : (b : Bool) → not b ≡ false → true ≡ b
true_of_not b h = ground arith

-- What opening does to the view.
Opens : Presence → String → String → ℕ → Bool → Presence → Type 0
Opens s user id now opened s' =
    (opened ≡ is_user_online s user)
    × (shown s'.verification_windows ≡ (
        let view = shown s.verification_windows in
        if opened then set view user (some (id, now)) else view))

Opens-of :
    (s s' : Presence) (user id : String) (now : ℕ) (b opened : Bool) (t : Presence)
    → ◌≡◌ {A = Result (Bool × Presence)} (ok (b, t)) (ok (opened, s'))
    → Opens s user id now b t
    → Opens s user id now opened s'
Opens-of s s' user id now b opened t e h =
    let (eb, es) = ok_pair_inj e in
    subst (λ x. Opens s user id now x s') eb (subst (λ x. Opens s user id now b x) es h)

-- An opening that answers tells whether the user is online; if so the user shows the new window,
-- pinged now, in place of any other, and if not nothing shown changes. No other user's window
-- changes.
pub open_verification_window-shown :
    (s s' : Presence) (user id : String) (now : ℕ) (opened : Bool)
    → open_verification_window s user id now ≡ ok (opened, s')
    → (opened ≡ is_user_online s user)
      × (shown s'.verification_windows ≡ (
          let view = shown s.verification_windows in
          if opened then set view user (some (id, now)) else view))
unfolding open_verification_window Opens
open_verification_window-shown s s' user id now opened h =
    if_ok (not (is_user_online s user))
      (λ off e. Opens-of s s' user id now false opened s e (false_of_not _ off, refl))
      (λ on e.
        if_ok (taken user id s.verification_windows) (λ t bad. err-ok bad)
          (λ f done.
            Opens-of s s' user id now true opened _ done
              (true_of_not _ on, put-shown user id now s.verification_windows))
          e)
      h

own : String → ℕ → String × ℕ → Bool
own id now v = is_named id v && is_fresh now v

own-test :
    (user id : String) (now : ℕ) (w : Window)
    → own_window user id now w ≡ (w.user_id == user && own id now (w.id, w.last_ping_at))
unfolding own_window own live is_named is_fresh
own-test user id now w = ground arith

named : String → String → Window → Bool
named user id w = w.id == id && w.user_id == user

named-test :
    (user id : String) (w : Window)
    → named user id w ≡ (w.user_id == user && is_named id (w.id, w.last_ping_at))
unfolding named is_named
named-test user id w = ground arith

and_true : (b : Bool) → (b && true) ≡ b
and_true b = ground arith

mine :
    (user : String) (test : String × ℕ → Bool) (q : Window → Bool)
    → ((w : Window) → q w ≡ (w.user_id == user && test (w.id, w.last_ping_at)))
    → (w : Window) → q w ≡ true
    → (w.user_id == user) ≡ true
mine user test q e w h = (and-true (w.user_id == user) _ (sym (e w) ∙ h)).0

emptied : (v : Option (String × ℕ)) → (if holds (λ v. true) v then none else v) ≡ none
unfolding holds
emptied none = refl
emptied (some v) = refl

-- Where each user has at most one window, seen as a function from users to the window shown, a
-- ping restamps the user's window if it has that id and was pinged in the last minute, and tells
-- so; a closing removes it if it has that id; going offline removes it; the test is whether it was
-- pinged in the last minute. No other user's window changes.
pub windows-shown :
    (s : Presence) (user id : String) (now : ℕ)
    → Distinct (λ w. w.user_id) s.verification_windows
    → let view = shown s.verification_windows in
      let v = view user in
      let alive = holds (λ v. is_named id v && is_fresh now v) v in
      ((ping_verification_window s user id now).0 ≡ alive)
      × (shown (ping_verification_window s user id now).1.verification_windows
          ≡ set view user (if alive then restamp now v else v))
      × (shown (close_verification_window s user id).verification_windows
          ≡ set view user (if holds (is_named id) v then none else v))
      × (shown (mark_user_offline s user).verification_windows ≡ set view user none)
      × (verification_window_open s user now ≡ holds (is_fresh now) v)
unfolding ping_verification_window close_verification_window mark_user_offline
    verification_window_open set_ping touch own named live is_fresh
windows-shown s user id now d =
    let ws = s.verification_windows in
    (
      any-shown user (own_window user id now) (own id now) ws d (own-test user id now),
      set-eq (shown ws) _ user _
          (shown-update user (own_window user id now) (own id now) now ws d (own-test user id now))
          (λ other n.
            update_other user (own_window user id now) (λ w. w.id) now ws other
              (mine user (own id now) (own_window user id now) (own-test user id now)) n),
      set-eq (shown ws) _ user _
          (shown-select user (named user id) (is_named id) ws d (named-test user id))
          (λ other n.
            select_other user (named user id) ws other
              (mine user (is_named id) (named user id) (named-test user id)) n),
      set-eq (shown ws) _ user _
          (shown-select user (λ w. w.user_id == user) (λ v. true) ws d (λ w. sym (and_true _))
            ∙ emptied (shown ws user))
          (λ other n. select_other user (λ w. w.user_id == user) ws other (λ w s. s) n),
      any-shown user _ (is_fresh now) ws d (λ w. refl),
    )
