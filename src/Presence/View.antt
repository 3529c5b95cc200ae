-- ===== src/Presence/View.antt =====
-- The verification windows (src/backend/verification_window.go) seen as at most one for each user.
use syrinx.Common.{
  ℕ, ◌+◌, String, Bool, true, false, ◌&&◌, not, ◌==◌, if◌then◌else◌, Option, none, some, List, [],
  ◌∷◌, ◌++◌, any, select, update, ltb, Distinct, All, All-map, and-true, ◌||◌, eq-false_of_ne,
  ne_of_eq-false, Bool-cases, inl, inr, ◌≡◌, refl, sym, ap, subst, ◌∙◌, arith, eq_iff,
}
use syrinx.Presence.{Window, verification_window_ttl}

-- The window a user shows: its id, and when it was last pinged.
abbrev pub View : Type 0
View = String → Option (String × ℕ)

unfoldable pub shown : List Window → View
shown [] user = none
shown (w ∷ ws) user =
    let rest = shown ws user in if w.user_id == user then some (w.id, w.last_ping_at) else rest

unfoldable pub set : View → String → Option (String × ℕ) → View
set view user value = λ other. if other == user then value else view other

-- A test of the window shown
unfoldable pub holds : (String × ℕ → Bool) → Option (String × ℕ) → Bool
holds test none = false
holds test (some v) = test v

unfoldable pub restamp : ℕ → Option (String × ℕ) → Option (String × ℕ)
restamp now none = none
restamp now (some (id, at)) = some (id, now)

unfoldable pub is_fresh : ℕ → String × ℕ → Bool
is_fresh now (id, at) = ltb now (at + verification_window_ttl)

unfoldable pub is_named : String → String × ℕ → Bool
is_named id (name, at) = name == id

true-false {ℓ} : {T : Type ℓ} → true ≡ false → T
true-false e = ground arith

unfoldable pub touch : (Window → String) → ℕ → Window → Window
touch g now w = record w { id = g w; last_ping_at = now }

apart :
    (w : Window) (user other : String)
    → (w.user_id == user) ≡ true
    → (other == user) ≡ false
    → (w.user_id == other) ≡ false
apart w user other t n =
    eq-false_of_ne w.user_id other
      (λ e. ne_of_eq-false other user n (sym e ∙ (eq_iff w.user_id user).0 t))

module _ (user : String) where
  pub update_other :
      (q : Window → Bool) (g : Window → String) (now : ℕ) (ws : List Window) (other : String)
      → ((w : Window) → q w ≡ true → (w.user_id == user) ≡ true)
      → (other == user) ≡ false
      → shown (update q (touch g now) ws) other ≡ shown ws other
  unfolding shown touch
  update_other q g now [] other within n = refl
  update_other q g now (w ∷ ws) other within n =
      let rest = update_other q g now ws other within n in
      elim (Bool-cases (q w)) [
        | inl t ↦ rw (t, apart w user other (within w t) n) rest
        | inr f ↦ rw (f, rest) refl
      ]

  pub select_other :
      (q : Window → Bool) (ws : List Window) (other : String)
      → ((w : Window) → q w ≡ true → (w.user_id == user) ≡ true)
      → (other == user) ≡ false
      → shown (select (λ w. not (q w)) ws) other ≡ shown ws other
  unfolding shown
  select_other q [] other within n = refl
  select_other q (w ∷ ws) other within n =
      let rest = select_other q ws other within n in
      elim (Bool-cases (q w)) [
        | inl t ↦ rw (t, apart w user other (within w t) n) rest
        | inr f ↦ rw (f, rest) refl
      ]

  pub append_other :
      (w : Window) (ws : List Window) (other : String)
      → (w.user_id == other) ≡ false
      → shown (ws ++ w ∷ []) other ≡ shown ws other
  unfolding shown
  append_other w [] other n = rw n refl
  append_other w (x ∷ xs) other n = rw (append_other w xs other n) refl

  pub append_self :
      (w : Window) (ws : List Window)
      → (w.user_id == user) ≡ true
      → any (λ w. w.user_id == user) ws ≡ false
      → shown (ws ++ w ∷ []) user ≡ some (w.id, w.last_ping_at)
  unfolding shown
  append_self w [] t h = rw t refl
  append_self w (x ∷ xs) t h = elim (Bool-cases (x.user_id == user)) [
    | inl mine ↦ ground arith
    | inr f ↦ rw f (append_self w xs t (rw f at h))
  ]

  pub update_self :
      (id : String) (now : ℕ) (ws : List Window)
      → any (λ w. w.user_id == user) ws ≡ true
      → shown (update (λ w. w.user_id == user) (touch (λ w. id) now) ws) user ≡ some (id, now)
  unfolding shown touch
  update_self id now [] h = ground arith
  update_self id now (w ∷ ws) h = elim (Bool-cases (w.user_id == user)) [
    | inl t ↦ rw (t, t) refl
    | inr f ↦ rw (f, f) (update_self id now ws (rw f at h))
  ]

  absent : (ws : List Window) → All (λ w. (w.user_id == user) ≡ false) ws → shown ws user ≡ none
  unfolding shown
  absent [] h = refl
  absent (w ∷ ws) h = rw (h.0) (absent ws h.1)

  none_of :
      (q : Window → Bool) (ws : List Window)
      → ((w : Window) → q w ≡ true → (w.user_id == user) ≡ true)
      → All (λ w. (w.user_id == user) ≡ false) ws
      → All (λ w. q w ≡ false) ws
  none_of q ws within h =
      All-map _ _ ws
        (λ w f. elim (Bool-cases (q w)) [
          | inl t ↦ absurd (true-false (sym (within w t) ∙ f))
          | inr e ↦ e
        ])
        h

  any_none : (q : Window → Bool) (ws : List Window) → All (λ w. q w ≡ false) ws → any q ws ≡ false
  any_none q [] h = refl
  any_none q (w ∷ ws) h = rw (h.0) (any_none q ws h.1)

  theirs :
      (w : Window) (ws : List Window)
      → (w.user_id == user) ≡ true
      → All (λ y. (y.user_id == w.user_id) ≡ false) ws
      → All (λ y. (y.user_id == user) ≡ false) ws
  theirs w ws t h =
      subst (λ s. All (λ (y : Window). (y.user_id == s) ≡ false) ws) ((eq_iff w.user_id user).0 t) h

  within :
      (q : Window → Bool) (test : String × ℕ → Bool)
      → ((w : Window) → q w ≡ (w.user_id == user && test (w.id, w.last_ping_at)))
      → (w : Window) → q w ≡ true
      → (w.user_id == user) ≡ true
  within q test e w h =
      (and-true (w.user_id == user) (test (w.id, w.last_ping_at)) (sym (e w) ∙ h)).0

  rest_none :
      (q : Window → Bool) (test : String × ℕ → Bool) (w : Window) (ws : List Window)
      → Distinct (λ w. w.user_id) (w ∷ ws)
      → (w.user_id == user) ≡ true
      → ((w : Window) → q w ≡ (w.user_id == user && test (w.id, w.last_ping_at)))
      → any q ws ≡ false
  rest_none q test w ws d t e = any_none q ws (none_of q ws (within q test e) (theirs w ws t d.0))

  or_false : (b : Bool) → (b || false) ≡ b
  or_false b = ground arith

  select_kept :
      (q : Window → Bool) (ws : List Window)
      → All (λ w. q w ≡ false) ws
      → select (λ w. not (q w)) ws ≡ ws
  select_kept q [] h = refl
  select_kept q (w ∷ ws) h = rw (h.0) (ap (λ r. w ∷ r) (select_kept q ws h.1))

  -- With one row for each user, a test of a user's row is a test of the window shown.
  pub any-shown :
      (q : Window → Bool) (test : String × ℕ → Bool) (ws : List Window)
      → Distinct (λ w. w.user_id) ws
      → ((w : Window) → q w ≡ (w.user_id == user && test (w.id, w.last_ping_at)))
      → any q ws ≡ holds test (shown ws user)
  unfolding shown holds
  any-shown q test [] d e = refl
  any-shown q test (w ∷ ws) d e = elim (Bool-cases (w.user_id == user)) [
    | inl t ↦
        let rest : any q ws ≡ false = rest_none q test w ws d t e in
        rw (e w, t, rest) (or_false (test (w.id, w.last_ping_at)))
    | inr f ↦ rw (e w, f) (any-shown q test ws d.1 e)
  ]

  pub shown-update :
      (q : Window → Bool) (test : String × ℕ → Bool) (now : ℕ) (ws : List Window)
      → Distinct (λ w. w.user_id) ws
      → ((w : Window) → q w ≡ (w.user_id == user && test (w.id, w.last_ping_at)))
      → shown (update q (touch (λ w. w.id) now) ws) user
        ≡ (let v = shown ws user in if holds test v then restamp now v else v)
  unfolding shown holds restamp touch
  shown-update q test now [] d e = refl
  shown-update q test now (w ∷ ws) d e = elim (Bool-cases (w.user_id == user)) [
    | inl t ↦ elim (Bool-cases (test (w.id, w.last_ping_at))) [
      | inl y ↦ rw (e w, t, y, t) refl
      | inr n ↦ rw (e w, t, n, t) refl
    ]
    | inr f ↦ rw (e w, f, f) (shown-update q test now ws d.1 e)
  ]

  pub shown-select :
      (q : Window → Bool) (test : String × ℕ → Bool) (ws : List Window)
      → Distinct (λ w. w.user_id) ws
      → ((w : Window) → q w ≡ (w.user_id == user && test (w.id, w.last_ping_at)))
      → shown (select (λ w. not (q w)) ws) user
        ≡ (let v = shown ws user in if holds test v then none else v)
  unfolding shown holds
  shown-select q test [] d e = refl
  shown-select q test (w ∷ ws) d e = elim (Bool-cases (w.user_id == user)) [
    | inl t ↦
        let others = absent ws (theirs w ws t d.0) in
        let kept : select (λ w. not (q w)) ws ≡ ws =
          select_kept q ws (none_of q ws (within q test e) (theirs w ws t d.0)) in
        elim (Bool-cases (test (w.id, w.last_ping_at))) [
          | inl y ↦ rw (e w, t, y, kept) others
          | inr n ↦ rw (e w, t, n, t) refl
        ]
    | inr f ↦ rw (e w, f, f) (shown-select q test ws d.1 e)
  ]
