-- ===== src/Follows/Saved.antt =====
-- saveFollowCertTx of src/backend/follows.go: the newest certificate of a pair counts.
use syrinx.Common.{
  ◌≤◌, ◌<◌, String, Bool, true, false, ◌&&◌, not, if◌then◌else◌, Option, none, some, Bool-cases,
  inl, inr, ◌⊎◌, ◌≡◌, refl, ap, ◌∙◌, arith,
}
use syrinx.Identity.{parse_identity_id}
use syrinx.Follows.{
  FollowCert, Follows, get_follow_cert, put_cert, drop_settled_unfollow, is_stale, set_follow_edges,
  owe_client, owe_home, owe_follow_cert, save_follow_cert,
}
use syrinx.Follows.Edges.{is_active, active-put_cert, active-select}

dead : (p q f o : Bool) → not (p && not f && not o) ≡ false → (q && f) ≡ false
dead p q f o h = ground arith

drop-active :
    (s : Follows) (x y : String)
    → is_active (drop_settled_unfollow s x y).follow_certs x y ≡ is_active s.follow_certs x y
unfolding drop_settled_unfollow
drop-active s x y = active-select _ x y s.follow_certs (λ c gone. dead _ _ _ _ gone)

module _ (server_id : String) where
  owe_home-certs :
      (s : Follows) (x y : String) (home : Option (String × String))
      → (owe_home server_id s x y home).follow_certs ≡ s.follow_certs
  unfolding owe_home owe_client
  owe_home-certs s x y none = refl
  owe_home-certs s x y (some (user, home)) = ground arith

  owe-certs :
      (s : Follows) (x y : String) → (owe_follow_cert server_id s x y).follow_certs ≡ s.follow_certs
  unfolding owe_follow_cert
  owe-certs s x y = owe_home-certs s x y (parse_identity_id y)

  owed-certs :
      (owe : Bool) (s : Follows) (x y : String)
      → (if owe then owe_follow_cert server_id s x y else s).follow_certs ≡ s.follow_certs
  owed-certs true s x y = owe-certs s x y
  owed-certs false s x y = refl

  fresh :
      (cert : FollowCert) (o : Option FollowCert)
      → is_stale cert o ≡ false
      → (o ≡ none)
        ⊎ ((held : FollowCert) × (o ≡ some held)
            × (held.server_signature.signed_at < cert.server_signature.signed_at))
  unfolding is_stale
  fresh cert none h = inl refl
  fresh cert (some held) h = inr (held, refl, ground arith)

  stale :
      (cert : FollowCert) (o : Option FollowCert)
      → is_stale cert o ≡ true
      → (held : FollowCert) × (o ≡ some held)
        × (cert.server_signature.signed_at ≤ held.server_signature.signed_at)
  unfolding is_stale
  stale cert none h = ground arith
  stale cert (some held) h = (held, refl, ground arith)

  -- A certificate that is no newer than the one held for its pair changes nothing and is told so;
  -- any other is applied, and then the pair follows or not as it says.
  pub save_follow_cert-is_active :
      (s : Follows) (cert : FollowCert) (owe : Bool)
      → let held_cert = get_follow_cert s cert.follower_id cert.followee_id in
        let saved = save_follow_cert server_id s cert owe in
        ((saved ≡ (false, s))
          × ((held : FollowCert) × (held_cert ≡ some held)
              × (cert.server_signature.signed_at ≤ held.server_signature.signed_at)))
        ⊎ ((saved.0 ≡ true)
            × (is_active saved.1.follow_certs cert.follower_id cert.followee_id ≡ cert.follow)
            × ((held_cert ≡ none)
                ⊎ ((held : FollowCert) × (held_cert ≡ some held)
                    × (held.server_signature.signed_at < cert.server_signature.signed_at))))
  unfolding save_follow_cert set_follow_edges
  save_follow_cert-is_active s cert owe =
      let x = cert.follower_id in
      let y = cert.followee_id in
      elim (Bool-cases (is_stale cert (get_follow_cert s x y))) [
        | inl t ↦ inl (rw t refl, stale cert (get_follow_cert s x y) t)
        | inr f ↦
            let linked =
              set_follow_edges server_id (record s { follow_certs = put_cert cert s.follow_certs })
                x y cert.follow in
            let owed = if owe then owe_follow_cert server_id linked x y else linked in
            let counts : is_active (drop_settled_unfollow owed x y).follow_certs x y ≡ cert.follow =
              drop-active owed x y
              ∙ ap (λ l. is_active l x y) (owed-certs owe linked x y)
              ∙ active-put_cert cert s.follow_certs in
            inr (rw f refl, rw f counts, fresh cert (get_follow_cert s x y) f)
      ]
