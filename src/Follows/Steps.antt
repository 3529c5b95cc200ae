-- ===== src/Follows/Steps.antt =====
-- The operations of src/backend/follows.go on the edges and the certificates.
use syrinx.Common.{
  ℕ, String, Bool, true, false, ◌&&◌, not, ◌==◌, if◌then◌else◌, nat_eq, Option, none, some, List,
  find, select, and-true, Bool-cases, inl, inr, ◌≡◌, refl, sym, ap, subst, ◌∙◌, arith, eq_iff,
  if-both,
}
use syrinx.Identity.{parse_identity_id}
use syrinx.Follows.{
  FollowCert, Follows, same_row, of_pair, get_follow_cert, set_row, put_cert, drop_settled_unfollow,
  is_stale, is_local, set_follow_edges, owe_client, owe_home, owe_follow_cert, save_follow_cert,
  unlink, undo, undo_refused_follow, ack_follow_event,
}
use syrinx.Follows.Edges.{
  edge, is_active, edge-set_row, edge-set_other, active-put_cert, active-put_other, active-select,
  active-select_pair, active-select_other,
}

-- A local user's edges are the active certificates of theirs, on both sides.
pub record Linked (server_id : String) (s : Follows) : Type 0 where
  pub following :
      (a b : String)
      → is_local server_id a ≡ true
      → edge s.user_following a b ≡ is_active s.follow_certs a b
  pub followers :
      (a b : String)
      → is_local server_id b ≡ true
      → edge s.user_followers b a ≡ is_active s.follow_certs a b

dead : (p q f o : Bool) → not (p && not f && not o) ≡ false → (q && f) ≡ false
dead p q f o h = ground arith

true-false {ℓ} : {T : Type ℓ} → true ≡ false → T
true-false e = ground arith

turned : (a b x y : String) → same_row b a (y, x) ≡ same_row a b (x, y)
turned a b x y = ground arith

module _ (server_id : String) where
  -- One side's edges after the pair's row is set, where the user is local, as the certificates are.
  set_side :
      (follow : Bool) (x y a b : String) (rows : List (String × String)) (old new : Bool)
      → is_local server_id a ≡ true
      → edge rows a b ≡ old
      → (same_row a b (x, y) ≡ true → new ≡ follow)
      → (same_row a b (x, y) ≡ false → new ≡ old)
      → edge (if is_local server_id x then set_row follow x y rows else rows) a b ≡ new
  set_side follow x y a b rows old new home before hit miss =
      elim (Bool-cases (same_row a b (x, y))) [
        | inl t ↦
            let (u, v) = and-true (x == a) (y == b) t in
            let p = (eq_iff x a).0 u in
            let q = (eq_iff y b).0 v in
            let here : is_local server_id x ≡ true = ap (is_local server_id) p ∙ home in
            let set : edge (set_row follow x y rows) a b ≡ follow =
              subst (λ z. edge (set_row follow x y rows) z b ≡ follow) p
                (subst (λ z. edge (set_row follow x y rows) x z ≡ follow) q
                  (edge-set_row follow x y rows)) in
            rw here (set ∙ sym (hit t))
        | inr n ↦ elim (Bool-cases (is_local server_id x)) [
          | inl here ↦ rw here (edge-set_other follow a b x y rows n ∙ before ∙ sym (miss n))
          | inr away ↦ rw away (before ∙ sym (miss n))
        ]
      ]

  active_at :
      (certs : List FollowCert) (a b x y : String) (follow : Bool)
      → is_active certs x y ≡ follow
      → same_row a b (x, y) ≡ true
      → is_active certs a b ≡ follow
  active_at certs a b x y follow e t =
      let (u, v) = and-true (x == a) (y == b) t in
      subst (λ z. is_active certs z b ≡ follow) ((eq_iff x a).0 u)
        (subst (λ z. is_active certs x z ≡ follow) ((eq_iff y b).0 v) e)

  -- Setting the pair's edges with its certificate.
  set-Linked :
      (s : Follows) (certs : List FollowCert) (x y : String) (follow : Bool)
      → Linked server_id s
      → is_active certs x y ≡ follow
      → ((a b : String)
          → same_row a b (x, y) ≡ false
          → is_active certs a b ≡ is_active s.follow_certs a b)
      → Linked server_id (record (set_follow_edges server_id s x y follow) { follow_certs = certs })
  unfolding set_follow_edges
  set-Linked s certs x y follow l now others = record {
    following = λ a b home.
        set_side follow x y a b s.user_following (is_active s.follow_certs a b)
          (is_active certs a b) home (l.following a b home)
          (λ t. active_at certs a b x y follow now t) (λ n. others a b n);
    followers = λ a b home.
        set_side follow y x b a s.user_followers (is_active s.follow_certs a b)
          (is_active certs a b) home (l.followers a b home)
          (λ t. active_at certs a b x y follow now (sym (turned a b x y) ∙ t))
          (λ n. others a b (sym (turned a b x y) ∙ n));
  }

  relink :
      (s t : Follows)
      → Linked server_id s
      → t.user_following ≡ s.user_following
      → t.user_followers ≡ s.user_followers
      → t.follow_certs ≡ s.follow_certs
      → Linked server_id t
  relink s t l p q r = record {
    following = λ a b home.
        ap (λ rows. edge rows a b) p ∙ l.following a b home ∙ sym (ap (λ c. is_active c a b) r);
    followers = λ a b home.
        ap (λ rows. edge rows b a) q ∙ l.followers a b home ∙ sym (ap (λ c. is_active c a b) r);
  }

  owe_home-Linked :
      (s : Follows) (x y : String) (home : Option (String × String))
      → Linked server_id s
      → Linked server_id (owe_home server_id s x y home)
  unfolding owe_home owe_client
  owe_home-Linked s x y none l = relink s _ l refl refl refl
  owe_home-Linked s x y (some (user, home)) l =
      if-both (Linked server_id) (home == server_id) (relink s _ l refl refl refl)
        (relink s _ l refl refl refl)

  owe-Linked :
      (s : Follows) (x y : String)
      → Linked server_id s
      → Linked server_id (owe_follow_cert server_id s x y)
  unfolding owe_follow_cert
  owe-Linked s x y l = owe_home-Linked s x y (parse_identity_id y) l

  unlink-Linked :
      (s : Follows) (x y : String) → Linked server_id s → Linked server_id (unlink server_id s x y)
  unfolding unlink set_follow_edges
  unlink-Linked s x y l =
      let unlinked =
        set-Linked s (select (λ c. not (of_pair x y c)) s.follow_certs) x y false l
          (active-select_pair x y s.follow_certs)
          (λ a b n. active-select_other a b x y s.follow_certs n) in
      record { following = unlinked.following; followers = unlinked.followers }

  undo-Linked :
      (s : Follows) (x y : String) (at : ℕ) (held : Option FollowCert)
      → Linked server_id s
      → Linked server_id (undo server_id s x y at held)
  unfolding undo
  undo-Linked s x y at none l = l
  undo-Linked s x y at (some held) l =
      if-both (Linked server_id) (nat_eq held.server_signature.signed_at at) (unlink-Linked s x y l)
        l

  drop-Linked :
      (s : Follows) (x y : String)
      → Linked server_id s
      → Linked server_id (drop_settled_unfollow s x y)
  unfolding drop_settled_unfollow
  drop-Linked s x y l =
      let same : (a b : String)
          → is_active (drop_settled_unfollow s x y).follow_certs a b
            ≡ is_active s.follow_certs a b =
        λ a b. active-select _ a b s.follow_certs (λ c gone. dead _ _ _ _ gone) in
      record {
        following = λ a b home. l.following a b home ∙ sym (same a b);
        followers = λ a b home. l.followers a b home ∙ sym (same a b);
      }

  edges_of :
      (s : Follows) (certs : List FollowCert) (x y : String) (follow : Bool)
      → set_follow_edges server_id (record s { follow_certs = certs }) x y follow
        ≡ record (set_follow_edges server_id s x y follow) { follow_certs = certs }
  unfolding set_follow_edges
  edges_of s certs x y follow = refl

  save_follow_cert-Linked :
      (s : Follows) (cert : FollowCert) (owe : Bool)
      → Linked server_id s
      → Linked server_id (save_follow_cert server_id s cert owe).1
  unfolding save_follow_cert
  save_follow_cert-Linked s cert owe l =
      let x = cert.follower_id in
      let y = cert.followee_id in
      let certs = put_cert cert s.follow_certs in
      let linked = subst (Linked server_id) (sym (edges_of s certs x y cert.follow)) (
        set-Linked s certs x y cert.follow l (active-put_cert cert s.follow_certs)
          (λ a b n. active-put_other cert a b s.follow_certs n)) in
      let owed = if-both (Linked server_id) owe (owe-Linked _ x y linked) linked in
      elim (Bool-cases (is_stale cert (get_follow_cert s x y))) [
        | inl t ↦ rw t l
        | inr f ↦ rw f (drop-Linked _ x y owed)
      ]

  ack-Linked :
      (s : Follows) (x y : String) (follow : Bool)
      → Linked server_id s
      → Linked server_id (ack_follow_event s x y follow)
  unfolding ack_follow_event
  ack-Linked s x y follow l =
      drop-Linked _ x y (if-both (Linked server_id) _ (relink s _ l refl refl refl) l)

pub data FollowStep (server_id : String) : Follows → Follows → Type 0 where
  saved :
      (s : Follows) (cert : FollowCert) (owe : Bool)
      → FollowStep server_id s (save_follow_cert server_id s cert owe).1
  settled :
      (s : Follows) (follower_id followee_id : String)
      → FollowStep server_id s (drop_settled_unfollow s follower_id followee_id)
  undone :
      (s : Follows) (follower_id followee_id : String) (signed_at : ℕ)
      → FollowStep server_id s (undo_refused_follow server_id s follower_id followee_id signed_at)
  acked :
      (s : Follows) (follower_id followee_id : String) (follow : Bool)
      → FollowStep server_id s (ack_follow_event s follower_id followee_id follow)

pub data FollowSteps (server_id : String) : Follows → Follows → Type 0 where
  done : (s : Follows) → FollowSteps server_id s s
  more :
      (s t u : Follows)
      → FollowStep server_id s t
      → FollowSteps server_id t u
      → FollowSteps server_id s u

module _ (server_id : String) where
  FollowStep-Linked :
      {s t : Follows} → Linked server_id s → FollowStep server_id s t → Linked server_id t
  unfolding undo_refused_follow
  FollowStep-Linked l (saved s cert owe) = save_follow_cert-Linked server_id s cert owe l
  FollowStep-Linked l (settled s x y) = drop-Linked server_id s x y l
  FollowStep-Linked l (undone s x y at) =
      undo-Linked server_id s x y at (find (λ c. of_pair x y c && c.follow) s.follow_certs) l
  FollowStep-Linked l (acked s x y follow) = ack-Linked server_id s x y follow l

  -- From tables in which the edges of a local user, on both sides, are the pairs whose certificate
  -- is a follow, any sequence of saved certificates, dropped unfollows, undone follows and
  -- acknowledged events leads to such tables.
  pub FollowSteps-Linked :
      {s t : Follows} → Linked server_id s → FollowSteps server_id s t → Linked server_id t
  FollowSteps-Linked l (done s) = l
  FollowSteps-Linked l (more s t u step steps) = FollowSteps-Linked (FollowStep-Linked l step) steps
