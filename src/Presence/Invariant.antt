-- ===== src/Presence/Invariant.antt =====
-- The keys and the foreign key of online_users and verification_windows (src/backend/db.go) under
-- every operation of src/backend/verification_window.go and of presence in src/backend/services.go.
use syrinx.Common.{
  ℕ, String, Bool, true, false, ◌&&◌, not, ◌==◌, List, [], ◌∷◌, ◌++◌, any, select, update, contains,
  Distinct, Distinct-update, Distinct-append, All, All-select, All-map, Bool-cases, inl, inr, ◌≡◌,
  refl, sym, subst, ◌∙◌, arith, eq_iff,
}
use syrinx.Presence.{
  OnlineUser, Window, Presence, set_pong, stale, is_user_online, mark_user_online,
  mark_user_offline, record_pongs, evict_stale_presence,
}

-- One presence row and at most one window for each user, a window's id is its own, and its user is
-- online.
pub record WellFormed (s : Presence) : Type 0 where
  pub online : Distinct (λ u. u.user_id) s.online_users
  pub windows : Distinct (λ w. w.user_id) s.verification_windows
  pub ids : Distinct (λ w. w.id) s.verification_windows
  pub backed : All (λ w. is_user_online s w.user_id ≡ true) s.verification_windows

pub Distinct-select {ℓ} :
    {A : Type ℓ} (key : A → String) (p : A → Bool) (xs : List A)
    → Distinct key xs
    → Distinct key (select p xs)
Distinct-select key p [] d = tt
Distinct-select key p (x ∷ xs) d = elim (Bool-cases (p x)) [
  | inl t ↦ rw t (All-select _ p xs d.0, Distinct-select key p xs d.1)
  | inr f ↦ rw f (Distinct-select key p xs d.1)
]

online-update :
    (q : OnlineUser → Bool) (now : ℕ) (user : String) (us : List OnlineUser)
    → any (λ u. u.user_id == user) (update q (set_pong now) us) ≡ any (λ u. u.user_id == user) us
unfolding set_pong
online-update q now user [] = refl
online-update q now user (u ∷ us) =
    let rest = online-update q now user us in
    elim (Bool-cases (q u)) [ inl t ↦ rw (t, rest) refl | inr f ↦ rw (f, rest) refl ]

online-append :
    (user : String) (us : List OnlineUser) (new : OnlineUser)
    → any (λ u. u.user_id == user) us ≡ true
    → any (λ u. u.user_id == user) (us ++ new ∷ []) ≡ true
online-append user [] new h = ground arith
online-append user (u ∷ us) new h = elim (Bool-cases (u.user_id == user)) [
  | inl t ↦ rw t refl
  | inr f ↦ rw f (online-append user us new (rw f at h))
]

other_online :
    (user off : String) (us : List OnlineUser)
    → (user == off) ≡ false
    → any (λ u. u.user_id == user) us ≡ true
    → any (λ u. u.user_id == user) (select (λ u. not (u.user_id == off)) us) ≡ true
other_online user off [] n h = ground arith
other_online user off (u ∷ us) n h = elim (Bool-cases (u.user_id == user)) [
  | inl t ↦
      let kept : (u.user_id == off) ≡ false =
        subst (λ s. (s == off) ≡ false) (sym ((eq_iff u.user_id user).0 t)) n in
      rw (kept, t) refl
  | inr f ↦
      let rest = other_online user off us n (rw f at h) in
      elim (Bool-cases (u.user_id == off)) [ inl t ↦ rw t rest | inr k ↦ rw (k, f) rest ]
]

pong_id : (now : ℕ) (u : OnlineUser) → (set_pong now u).user_id ≡ u.user_id
unfolding set_pong
pong_id now u = refl

pub mark_user_online-WellFormed :
    (s : Presence) (user : String) (now : ℕ)
    → WellFormed s
    → WellFormed (mark_user_online s user now)
unfolding mark_user_online is_user_online
mark_user_online-WellFormed s user now h = elim (Bool-cases (is_user_online s user)) [
  | inl t ↦ rw t (record {
    online =
        Distinct-update (λ u. u.user_id) (λ u. u.user_id == user) (set_pong now) s.online_users
          (pong_id now) h.online;
    windows = h.windows;
    ids = h.ids;
    backed =
        All-map _ _ s.verification_windows
          (λ w b. online-update (λ u. u.user_id == user) now w.user_id s.online_users ∙ b) h.backed;
  })
  | inr f ↦ rw f (record {
    online =
        Distinct-append (λ u. u.user_id) s.online_users (record { user_id = user; last_pong = now })
          h.online f;
    windows = h.windows;
    ids = h.ids;
    backed =
        All-map _ _ s.verification_windows
          (λ w b.
            online-append w.user_id s.online_users (record { user_id = user; last_pong = now }) b)
          h.backed;
  })
]

still_backed :
    (s : Presence) (off : String) (ws : List Window)
    → All (λ w. is_user_online s w.user_id ≡ true) ws
    → All
        (λ w. is_user_online (mark_user_offline s off) w.user_id ≡ true)
        (select (λ w. not (w.user_id == off)) ws)
unfolding mark_user_offline is_user_online
still_backed s off [] h = tt
still_backed s off (w ∷ ws) h = elim (Bool-cases (w.user_id == off)) [
  | inl t ↦ rw t (still_backed s off ws h.1)
  | inr f ↦ rw f (other_online w.user_id off s.online_users f h.0, still_backed s off ws h.1)
]

pub mark_user_offline-WellFormed :
    (s : Presence) (user : String) → WellFormed s → WellFormed (mark_user_offline s user)
unfolding mark_user_offline is_user_online
mark_user_offline-WellFormed s user h = record {
  online = Distinct-select _ _ s.online_users h.online;
  windows = Distinct-select _ _ s.verification_windows h.windows;
  ids = Distinct-select _ _ s.verification_windows h.ids;
  backed = still_backed s user s.verification_windows h.backed;
}

pub record_pongs-WellFormed :
    (s : Presence) (users : List String) (now : ℕ)
    → WellFormed s
    → WellFormed (record_pongs s users now).1
unfolding record_pongs is_user_online
record_pongs-WellFormed s users now h = record {
  online =
      Distinct-update (λ u. u.user_id) (λ u. contains users u.user_id) (set_pong now) s.online_users
        (pong_id now) h.online;
  windows = h.windows;
  ids = h.ids;
  backed =
      All-map _ _ s.verification_windows
        (λ w b. online-update (λ u. contains users u.user_id) now w.user_id s.online_users ∙ b)
        h.backed;
}

pub evict_stale_presence-WellFormed :
    (s : Presence) (user : String) (now ttl : ℕ)
    → WellFormed s
    → WellFormed (evict_stale_presence s user now ttl).1
unfolding evict_stale_presence
evict_stale_presence-WellFormed s user now ttl h =
    elim (Bool-cases (any (λ u. u.user_id == user && stale now ttl u) s.online_users)) [
      | inl t ↦ rw t (mark_user_offline-WellFormed s user h)
      | inr f ↦ rw f h
    ]
