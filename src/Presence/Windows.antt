-- ===== src/Presence/Windows.antt =====
-- The keys of verification_windows and its foreign key under the operations of
-- src/backend/verification_window.go.
use syrinx.Common.{
  double_not, ℕ, String, Bool, true, false, not, ◌==◌, List, [], ◌∷◌, any, update, Distinct,
  Distinct-update, Distinct-append, All, All-append, All-update, All-select, Bool-cases, inl, inr,
  ◌≡◌, refl, sym, ap, subst, ◌∙◌, arith, eq_iff, eq-false_of_ne, ne_of_eq-false, ok, ok_pair_inj,
  if_ok, err-ok, Result,
}
use syrinx.Presence.{
  Window, Presence, set_window, put_window, taken, own_window, set_ping, is_user_online,
  open_verification_window, ping_verification_window, close_verification_window,
}
use syrinx.Presence.Invariant.{WellFormed, Distinct-select}

pub ping-WellFormed :
    (s : Presence) (user id : String) (now : ℕ)
    → WellFormed s
    → WellFormed (ping_verification_window s user id now).1
unfolding ping_verification_window is_user_online set_ping
ping-WellFormed s user id now h = record {
  online = h.online;
  windows =
      Distinct-update (λ w. w.user_id) (own_window user id now) (set_ping now)
        s.verification_windows (λ w. refl) h.windows;
  ids =
      Distinct-update (λ w. w.id) (own_window user id now) (set_ping now) s.verification_windows
        (λ w. refl) h.ids;
  backed =
      All-update (λ w. is_user_online s w.user_id ≡ true) (own_window user id now) (set_ping now)
        s.verification_windows (λ w t b. b) h.backed;
}

pub close-WellFormed :
    (s : Presence) (user id : String)
    → WellFormed s
    → WellFormed (close_verification_window s user id)
unfolding close_verification_window is_user_online
close-WellFormed s user id h = record {
  online = h.online;
  windows = Distinct-select _ _ s.verification_windows h.windows;
  ids = Distinct-select _ _ s.verification_windows h.ids;
  backed = All-select _ _ s.verification_windows h.backed;
}

flip_false : (s t : String) → (s == t) ≡ false → (t == s) ≡ false
flip_false s t n = eq-false_of_ne t s (λ e. ne_of_eq-false s t n (sym e))

update_absent :
    (user : String) (f : Window → Window) (ws : List Window)
    → All (λ w. (w.user_id == user) ≡ false) ws
    → update (λ w. w.user_id == user) f ws ≡ ws
update_absent user f [] h = refl
update_absent user f (w ∷ ws) h = rw (h.0) (ap (λ r. w ∷ r) (update_absent user f ws h.1))

-- An id that no other user has is not one of the rows of others.
not_theirs :
    (user id : String) (ws : List Window)
    → taken user id ws ≡ false
    → All (λ w. (w.user_id == user) ≡ false → (w.id == id) ≡ false) ws
unfolding taken
not_theirs user id [] h = tt
not_theirs user id (w ∷ ws) h = (λ f. ground arith, not_theirs user id ws (ground arith))

fresh_id :
    (user id : String) (ws : List Window)
    → All (λ w. (w.user_id == user) ≡ false) ws
    → taken user id ws ≡ false
    → All (λ w. (w.id == id) ≡ false) ws
unfolding taken
fresh_id user id [] h k = tt
fresh_id user id (w ∷ ws) h k = (ground (arith, h.0), fresh_id user id ws h.1 (ground arith))

put_ids :
    (user id : String) (now : ℕ) (ws : List Window)
    → Distinct (λ w. w.user_id) ws
    → Distinct (λ w. w.id) ws
    → taken user id ws ≡ false
    → Distinct (λ w. w.id) (update (λ w. w.user_id == user) (set_window id now) ws)
unfolding set_window taken
put_ids user id now [] d k t = tt
put_ids user id now (w ∷ ws) d k t = elim (Bool-cases (w.user_id == user)) [
  | inl mine ↦
      let others : All (λ y. (y.user_id == user) ≡ false) ws =
        subst (λ s. All (λ (y : Window). (y.user_id == s) ≡ false) ws)
          ((eq_iff w.user_id user).0 mine) d.0 in
      let rest : taken user id ws ≡ false = ground arith in
      rw (mine, update_absent user (set_window id now) ws others)
        (fresh_id user id ws others rest, k.1)
  | inr theirs ↦
      let rest : taken user id ws ≡ false = ground arith in
      let mine_not : (w.id == id) ≡ false = ground arith in
      rw theirs (
        All-update (λ y. (y.id == w.id) ≡ false) (λ w. w.user_id == user) (set_window id now) ws
            (λ y s p. flip_false w.id id mine_not) k.0,
        put_ids user id now ws d.1 k.1 rest,
      )
]

put_user : (user id : String) (now : ℕ) (w : Window) → (set_window id now w).user_id ≡ w.user_id
unfolding set_window
put_user user id now w = refl

any_absent :
    (user : String) (ws : List Window)
    → any (λ w. w.user_id == user) ws ≡ false
    → All (λ w. (w.user_id == user) ≡ false) ws
any_absent user [] h = tt
any_absent user (w ∷ ws) h = (ground arith, any_absent user ws (ground arith))

any_fresh :
    (id : String) (ws : List Window)
    → All (λ w. (w.id == id) ≡ false) ws
    → any (λ w. w.id == id) ws ≡ false
any_fresh id [] h = refl
any_fresh id (w ∷ ws) h = rw (h.0) (any_fresh id ws h.1)

put-WellFormed :
    (s : Presence) (user id : String) (now : ℕ)
    → is_user_online s user ≡ true
    → taken user id s.verification_windows ≡ false
    → WellFormed s
    → WellFormed (record s { verification_windows = put_window user id now s.verification_windows })
unfolding put_window is_user_online
put-WellFormed s user id now on free h =
    let ws = s.verification_windows in
    let new : Window = record { id = id; user_id = user; last_ping_at = now } in
    elim (Bool-cases (any (λ w. w.user_id == user) ws)) [
      | inl t ↦ rw t (record {
        online = h.online;
        windows =
            Distinct-update (λ w. w.user_id) (λ w. w.user_id == user) (set_window id now) ws
              (put_user user id now) h.windows;
        ids = put_ids user id now ws h.windows h.ids free;
        backed =
            All-update (λ w. is_user_online s w.user_id ≡ true) (λ w. w.user_id == user)
              (set_window id now) ws (λ w t b. ap (is_user_online s) (put_user user id now w) ∙ b)
              h.backed;
      })
      | inr f ↦ rw f (record {
        online = h.online;
        windows = Distinct-append (λ w. w.user_id) ws new h.windows f;
        ids =
            Distinct-append (λ w. w.id) ws new h.ids
              (any_fresh id ws (fresh_id user id ws (any_absent user ws f) free));
        backed =
            All-append (λ w. is_user_online s w.user_id ≡ true) ws (new ∷ []) h.backed (on, tt);
      })
    ]

pub open-WellFormed :
    (s s' : Presence) (user id : String) (now : ℕ) (opened : Bool)
    → WellFormed s
    → open_verification_window s user id now ≡ ok (opened, s')
    → WellFormed s'
unfolding open_verification_window
open-WellFormed s s' user id now opened w h =
    if_ok (not (is_user_online s user)) (λ off e. subst WellFormed (second e) w)
      (λ on e.
        if_ok (taken user id s.verification_windows) (λ t bad. err-ok bad)
          (λ f done.
            subst WellFormed (second done) (put-WellFormed s user id now (double_not _ on) f w))
          e)
      h
  where
    second :
        {b c : Bool} {x y : Presence}
        → ◌≡◌ {A = Result (Bool × Presence)} (ok (b, x)) (ok (c, y))
        → x ≡ y
    second e = (ok_pair_inj e).1
