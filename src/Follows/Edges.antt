-- ===== src/Follows/Edges.antt =====
-- The rows and certificates of src/backend/follows.go under one pair's change.
use syrinx.Common.{
  double_not, String, Bool, true, false, ◌&&◌, ◌||◌, not, ◌==◌, List, [], ◌∷◌, ◌++◌, any, select,
  update, and-true, Bool-cases, inl, inr, ◌≡◌, refl, sym, subst, ◌∙◌, arith, eq_iff, eq_refl,
}
use syrinx.Follows.{FollowCert, same_row, of_pair, add_row, delete_row, set_row, put_cert}

abbrev pub edge : List (String × String) → String → String → Bool
edge rows a b = any (same_row a b) rows

abbrev pub is_active : List FollowCert → String → String → Bool
is_active certs a b = any (λ c. of_pair a b c && c.follow) certs

same_row_lem : (a b : String) (r : String × String) → same_row a b r ≡ true → r ≡ (a, b)
same_row_lem a b r h =
    let (t, u) = and-true (r.0 == a) (r.1 == b) h in
    let p = (eq_iff r.0 a).0 t in let q = (eq_iff r.1 b).0 u in λ i. (p i, q i)

same_row_refl : (a b : String) → same_row a b (a, b) ≡ true
same_row_refl a b = rw (eq_refl a, eq_refl b) refl

edge_append :
    (rows : List (String × String)) (r : String × String) (a b : String)
    → edge (rows ++ r ∷ []) a b ≡ (edge rows a b || same_row a b r)
edge_append [] r a b = ground arith
edge_append (x ∷ xs) r a b = let rest = edge_append xs r a b in ground arith

edge-delete_row :
    (a b : String) (rows : List (String × String)) → edge (delete_row a b rows) a b ≡ false
unfolding delete_row
edge-delete_row a b [] = refl
edge-delete_row a b (r ∷ rs) = elim (Bool-cases (same_row a b r)) [
  | inl t ↦ rw t (edge-delete_row a b rs)
  | inr f ↦ rw (f, f) (edge-delete_row a b rs)
]

edge-delete_other :
    (a b x y : String) (rows : List (String × String))
    → same_row a b (x, y) ≡ false
    → edge (delete_row x y rows) a b ≡ edge rows a b
unfolding delete_row
edge-delete_other a b x y [] n = refl
edge-delete_other a b x y (r ∷ rs) n =
    let rest = edge-delete_other a b x y rs n in
    elim (Bool-cases (same_row x y r)) [
      | inl t ↦
          let miss : same_row a b r ≡ false =
            subst (λ z. same_row a b z ≡ false) (sym (same_row_lem x y r t)) n in
          rw (t, miss) rest
      | inr f ↦ rw (f, rest) refl
    ]

or_true : (b : Bool) → (b || true) ≡ true
or_true b = ground arith

or_false : (b : Bool) → (b || false) ≡ b
or_false b = ground arith

-- The pair's own row says what was set, every other row what it said.
pub edge-set_row :
    (follow : Bool) (a b : String) (rows : List (String × String))
    → edge (set_row follow a b rows) a b ≡ follow
unfolding set_row add_row
edge-set_row false a b rows = edge-delete_row a b rows
edge-set_row true a b rows = elim (Bool-cases (edge rows a b)) [
  | inl t ↦ rw (t, t) refl
  | inr f ↦ rw f (edge_append rows (a, b) a b ∙ rw (same_row_refl a b) (or_true _))
]

pub edge-set_other :
    (follow : Bool) (a b x y : String) (rows : List (String × String))
    → same_row a b (x, y) ≡ false
    → edge (set_row follow x y rows) a b ≡ edge rows a b
unfolding set_row add_row
edge-set_other false a b x y rows n = edge-delete_other a b x y rows n
edge-set_other true a b x y rows n = elim (Bool-cases (any (same_row x y) rows)) [
  | inl t ↦ rw t refl
  | inr f ↦ rw f (edge_append rows (x, y) a b ∙ rw n (or_false _))
]

of_pair_lem :
    (a b : String) (c : FollowCert)
    → of_pair a b c ≡ true
    → (c.follower_id ≡ a) × (c.followee_id ≡ b)
of_pair_lem a b c h =
    let (t, u) = and-true (c.follower_id == a) (c.followee_id == b) h in
    ((eq_iff c.follower_id a).0 t, (eq_iff c.followee_id b).0 u)

absorb : (a b : Bool) → (a || a && b) ≡ (a && true)
absorb a b = ground arith

and_true : (b : Bool) → (b && true) ≡ b
and_true b = ground arith

active-update :
    (cert : FollowCert) (a b : String) (certs : List FollowCert)
    → is_active
        (update
          (of_pair a b)
          (λ c. record c {
            follow = cert.follow;
            user_signature = cert.user_signature;
            server_signature = cert.server_signature;
          })
          certs)
        a
        b
      ≡ (cert.follow && any (of_pair a b) certs)
active-update cert a b [] = ground arith
active-update cert a b (c ∷ cs) =
    let rest = active-update cert a b cs in
    elim (Bool-cases (of_pair a b c)) [
      | inl t ↦ rw (t, t, rest) (absorb _ _)
      | inr f ↦ rw (f, f, rest) refl
    ]

active_append :
    (certs : List FollowCert) (c : FollowCert) (a b : String)
    → is_active (certs ++ c ∷ []) a b ≡ (is_active certs a b || of_pair a b c && c.follow)
active_append [] c a b = ground arith
active_append (x ∷ xs) c a b = let rest = active_append xs c a b in ground arith

no_pair :
    (certs : List FollowCert) (a b : String)
    → any (of_pair a b) certs ≡ false
    → is_active certs a b ≡ false
no_pair [] a b h = refl
no_pair (c ∷ cs) a b h = let rest = no_pair cs a b (ground arith) in ground arith

-- The pair is followed as its new certificate says, every other pair as before.
pub active-put_cert :
    (cert : FollowCert) (certs : List FollowCert)
    → is_active (put_cert cert certs) cert.follower_id cert.followee_id ≡ cert.follow
unfolding put_cert
active-put_cert cert certs =
    let a = cert.follower_id in
    let b = cert.followee_id in
    elim (Bool-cases (any (of_pair a b) certs)) [
      | inl t ↦ rw t (active-update cert a b certs ∙ rw t (and_true _))
      | inr f ↦
          rw f (active_append certs cert a b ∙ rw (no_pair certs a b f, eq_refl a, eq_refl b) refl)
    ]

miss_pair :
    (a b x y : String) (c : FollowCert)
    → same_row a b (x, y) ≡ false
    → of_pair x y c ≡ true
    → of_pair a b c ≡ false
miss_pair a b x y c n t =
    let (p, q) = of_pair_lem x y c t in
    subst (λ s. (s == a && c.followee_id == b) ≡ false) (sym p)
      (subst (λ s. (x == a && s == b) ≡ false) (sym q) n)

active-update_other :
    (cert : FollowCert) (a b x y : String) (certs : List FollowCert)
    → same_row a b (x, y) ≡ false
    → is_active
        (update
          (of_pair x y)
          (λ c. record c {
            follow = cert.follow;
            user_signature = cert.user_signature;
            server_signature = cert.server_signature;
          })
          certs)
        a
        b
      ≡ is_active certs a b
active-update_other cert a b x y [] n = refl
active-update_other cert a b x y (c ∷ cs) n =
    let rest = active-update_other cert a b x y cs n in
    elim (Bool-cases (of_pair x y c)) [
      | inl t ↦ let miss = miss_pair a b x y c n t in rw (t, miss, rest) refl
      | inr f ↦ rw (f, rest) refl
    ]

pub active-put_other :
    (cert : FollowCert) (a b : String) (certs : List FollowCert)
    → same_row a b (cert.follower_id, cert.followee_id) ≡ false
    → is_active (put_cert cert certs) a b ≡ is_active certs a b
unfolding put_cert
active-put_other cert a b certs n =
    elim (Bool-cases (any (of_pair cert.follower_id cert.followee_id) certs)) [
      | inl t ↦ rw t (active-update_other cert a b cert.follower_id cert.followee_id certs n)
      | inr f ↦ rw f (active_append certs cert a b ∙ rw n (or_false _))
    ]

-- Deleting what is no follow changes nobody's follows.
pub active-select :
    (p : FollowCert → Bool) (a b : String) (certs : List FollowCert)
    → ((c : FollowCert) → p c ≡ false → (of_pair a b c && c.follow) ≡ false)
    → is_active (select p certs) a b ≡ is_active certs a b
active-select p a b [] dead = refl
active-select p a b (c ∷ cs) dead =
    let rest = active-select p a b cs dead in
    elim (Bool-cases (p c)) [
      | inl t ↦ rw (t, rest) refl
      | inr f ↦ let gone = dead c f in rw (f, gone) rest
    ]

pub active-select_pair :
    (a b : String) (certs : List FollowCert)
    → is_active (select (λ c. not (of_pair a b c)) certs) a b ≡ false
active-select_pair a b [] = refl
active-select_pair a b (c ∷ cs) = elim (Bool-cases (of_pair a b c)) [
  | inl t ↦ rw t (active-select_pair a b cs)
  | inr f ↦ rw (f, f) (active-select_pair a b cs)
]

pub active-select_other :
    (a b x y : String) (certs : List FollowCert)
    → same_row a b (x, y) ≡ false
    → is_active (select (λ c. not (of_pair x y c)) certs) a b ≡ is_active certs a b
active-select_other a b x y certs n =
    active-select (λ c. not (of_pair x y c)) a b certs
      (λ c gone. let miss = miss_pair a b x y c n (double_not _ gone) in rw miss refl)
