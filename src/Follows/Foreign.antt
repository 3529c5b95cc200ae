-- ===== src/Follows/Foreign.antt =====
-- A peer's follow, as a certificate: verifyForeignFollow of src/backend/follows.go and
-- verifyPeerCountersignature of federation_relay.go. Resolving a user's key and fetching a peer's
-- older server key are calls of the peer; these and the pinned key are parameters.
use syrinx.Common.{
  ◌⊎◌, ◌≢◌, inl, inr, Bool-cases, ne_of_eq-false, eq-false_of_ne, arith, ◌↔◌, refl, double_not, ℕ,
  String, Bool, true, false, not, ◌==◌, if◌then◌else◌, Option, none, some, [], ◌∷◌, ◌≡◌, ap, ◌∙◌,
  arith, eq_iff, Result, ok, failed, refuse_if, refuse_if-ok, or_fail, or_fail-some, ◌>>=◌, ◌>>◌,
  >>=-eq-ok, >>-eq-ok,
}
use syrinx.Identity.{parse_identity_id}
use syrinx.Signing.{text, flag, timestamp, Payload, canonical_json, Crypto}
use syrinx.Store.{ServerSignature}
use syrinx.Admin.Foreign.Owner.{
  OwnKey, OwnKey-requester_key_belongs_to, requester_key_belongs_to-OwnKey,
}
use syrinx.Admin.Foreign.{requester_key_belongs_to}
use syrinx.Follows.{FollowCert}

-- buildFollowUserPayload
unfoldable pub follow_user : String → String → String → Bool → Payload
follow_user follower_id followee_id key_id follow = canonical_json (
    ("type", text "follow")
    ∷ ("followerID", text follower_id)
    ∷ ("followeeID", text followee_id)
    ∷ ("keyID", text key_id)
    ∷ ("follow", flag follow)
    ∷ [])

-- buildFollowServerPayload
unfoldable pub follow_server : String → String → Bool → String → String → ℕ → Payload
follow_server follower_id followee_id follow fingerprint user_signature signed_at = canonical_json (
    ("type", text "follow")
    ∷ ("followerID", text follower_id)
    ∷ ("followeeID", text followee_id)
    ∷ ("follow", flag follow)
    ∷ ("signedAt", timestamp signed_at)
    ∷ ("serverKeyFingerprint", text fingerprint)
    ∷ ("userSignature", text user_signature)
    ∷ [])

-- The peer's key pinned at approval
pub record Pin : Type 0 where
  pub key_id : String
  pub armor : String

-- What is asked of peers and of the tables of peers
pub record Peers : Type 0 where
  pub resolve : String → Option String
  pub pin : String → Option Pin
  pub fetch_server_key : String → String → Option String

is_user_of : String → Option (String × String) → Bool
is_user_of server_id none = false
is_user_of server_id (some (user, home)) = home == server_id

module _ (crypto : Crypto) (peers : Peers) where
  -- The armor that checks a countersignature by the key
  unfoldable pub server_armor : String → Pin → ServerSignature → String → Option String
  server_armor peer pin sig fingerprint =
      if pin.key_id == sig.key_id then some pin.armor else peers.fetch_server_key peer fingerprint

  -- verifyPeerCountersignature
  unfoldable pub verify_peer_countersignature :
      String → ServerSignature → (String → Payload) → Result (Unit {0})
  unfolding server_armor
  verify_peer_countersignature peer sig payload =
      or_fail (parse_identity_id sig.key_id) (failed "countersignature is not the calling peer's")
      >>= λ (fingerprint, home).
          refuse_if (not (home == peer)) (failed "countersignature is not the calling peer's")
          >> (or_fail (peers.pin peer) (failed "calling peer has no pinned key") >>= λ pin.
              or_fail (server_armor peer pin sig fingerprint) (failed "fetch countersigning key")
              >>= λ armor.
                  refuse_if (not (crypto.verify_signature (payload fingerprint) sig.armor armor))
                    (failed "countersignature"))

  -- verifyForeignFollow
  unfoldable pub verify_foreign_follow : String → String → FollowCert → Result (Unit {0})
  unfolding is_user_of verify_peer_countersignature follow_user follow_server
  verify_foreign_follow server_id peer cert =
      refuse_if (not (is_user_of peer (parse_identity_id cert.follower_id)))
        (failed "follower is not a user of the calling peer")
      >> refuse_if (not (is_user_of server_id (parse_identity_id cert.followee_id)))
          (failed "followee is not local")
      >> refuse_if (not (requester_key_belongs_to cert.user_signature.key_id cert.follower_id peer))
          (failed "signing key is not the follower's")
      >> (or_fail (peers.resolve cert.user_signature.key_id)
            (failed "follower key could not be resolved")
          >>= λ armor.
              refuse_if
                (not (
                  crypto.verify_signature
                    (follow_user cert.follower_id cert.followee_id cert.user_signature.key_id
                      cert.follow)
                    cert.user_signature.armor armor))
                (failed "user signature")
              >> verify_peer_countersignature peer cert.server_signature (λ fingerprint.
                follow_server cert.follower_id cert.followee_id cert.follow fingerprint
                  cert.user_signature.armor cert.server_signature.signed_at))

  -- The pinned key where the signature names it, else the one that the peer is asked for
  abbrev pub KeyOf : String → Pin → ServerSignature → String → String → Type 0
  KeyOf peer pin sig fingerprint armor =
      ((pin.key_id ≡ sig.key_id) × (pin.armor ≡ armor))
      ⊎ ((pin.key_id ≢ sig.key_id) × (peers.fetch_server_key peer fingerprint ≡ some armor))

  text_inj : {a b : String} → some a ≡ some b → a ≡ b
  text_inj e = ground arith

  server_armor-KeyOf :
      (peer : String) (pin : Pin) (sig : ServerSignature) (fingerprint armor : String)
      → server_armor peer pin sig fingerprint ≡ some armor
      → KeyOf peer pin sig fingerprint armor
  unfolding server_armor
  server_armor-KeyOf peer pin sig fingerprint armor h =
      elim (Bool-cases (pin.key_id == sig.key_id)) [
        | inl t ↦ inl ((eq_iff _ _).0 t, text_inj (rw (server_armor, t) at h))
        | inr f ↦ inr (ne_of_eq-false _ _ f, rw (server_armor, f) at h)
      ]

  KeyOf-server_armor :
      (peer : String) (pin : Pin) (sig : ServerSignature) (fingerprint armor : String)
      → KeyOf peer pin sig fingerprint armor
      → server_armor peer pin sig fingerprint ≡ some armor
  unfolding server_armor
  KeyOf-server_armor peer pin sig fingerprint armor = elim [
    | inl (e, a) ↦ rw (server_armor, (eq_iff _ _).1 e) (ap some a)
    | inr (n, a) ↦ rw (server_armor, eq-false_of_ne _ _ n) a
  ]

  -- What a peer's certificate that passes is.
  pub record Genuine (server_id peer : String) (cert : FollowCert) : Type 0 where
    pub follower : (user : String) × (parse_identity_id cert.follower_id ≡ some (user, peer))
    pub followee : (user : String) × (parse_identity_id cert.followee_id ≡ some (user, server_id))
    pub own_key : OwnKey cert.user_signature.key_id cert.follower_id peer
    pub signed :
        (armor : String) × (peers.resolve cert.user_signature.key_id ≡ some armor)
        × (crypto.verify_signature
              (follow_user cert.follower_id cert.followee_id cert.user_signature.key_id cert.follow)
              cert.user_signature.armor
              armor
            ≡ true)
    pub countersigned :
        (fingerprint : String) × (pin : Pin) × (armor : String) × (parse_identity_id
            cert.server_signature.key_id
          ≡ some (fingerprint, peer))
        × (peers.pin peer ≡ some pin)
        × KeyOf peer pin cert.server_signature fingerprint armor
        × (crypto.verify_signature
              (follow_server cert.follower_id cert.followee_id cert.follow fingerprint
                cert.user_signature.armor cert.server_signature.signed_at)
              cert.server_signature.armor
              armor
            ≡ true)

  user_of :
      (server_id : String) (o : Option (String × String))
      → not (is_user_of server_id o) ≡ false
      → (user : String) × (o ≡ some (user, server_id))
  unfolding is_user_of
  user_of server_id none h = ground arith
  user_of server_id (some (user, home)) h =
      (user, ap (λ s. some (user, s)) ((eq_iff home server_id).0 (double_not _ h)))

  countersignature_sound :
      (peer : String) (sig : ServerSignature) (payload : String → Payload)
      → verify_peer_countersignature peer sig payload ≡ ok tt
      → (fingerprint : String) × (pin : Pin) × (armor : String) × (parse_identity_id sig.key_id
          ≡ some (fingerprint, peer))
        × (peers.pin peer ≡ some pin)
        × KeyOf peer pin sig fingerprint armor
        × (crypto.verify_signature (payload fingerprint) sig.armor armor ≡ true)
  unfolding verify_peer_countersignature
  countersignature_sound peer sig payload h =
      let ((fingerprint, home), parsed, h1) =
        >>=-eq-ok
          (or_fail (parse_identity_id sig.key_id)
            (failed "countersignature is not the calling peer's"))
          _ h in
      let (at_peer, h2) = >>-eq-ok _ _ h1 in
      let (pin, pinned, h3) =
        >>=-eq-ok (or_fail (peers.pin peer) (failed "calling peer has no pinned key")) _ h2 in
      let (armor, found, checked) =
        >>=-eq-ok
          (or_fail (server_armor peer pin sig fingerprint) (failed "fetch countersigning key")) _
          h3 in
      let same : home ≡ peer = (eq_iff home peer).0 (double_not _ (refuse_if-ok _ _ at_peer)) in
      (
        fingerprint,
        pin,
        armor,
        or_fail-some _ parsed ∙ ap (λ s. some (fingerprint, s)) same,
        or_fail-some _ pinned,
        server_armor-KeyOf peer pin sig fingerprint armor (or_fail-some _ found),
        double_not _ (refuse_if-ok _ _ checked),
      )

  verify-Genuine :
      (server_id peer : String) (cert : FollowCert)
      → verify_foreign_follow server_id peer cert ≡ ok tt
      → Genuine server_id peer cert
  unfolding verify_foreign_follow
  verify-Genuine server_id peer cert h =
      let (h1, rest) = >>-eq-ok _ _ h in
      let (h2, own) = >>-eq-ok _ _ h1 in
      let (theirs, ours) = >>-eq-ok _ _ h2 in
      let (armor, resolved, h3) =
        >>=-eq-ok
          (or_fail (peers.resolve cert.user_signature.key_id)
            (failed "follower key could not be resolved"))
          _ rest in
      let (signed, countersigned) = >>-eq-ok _ _ h3 in
      record {
        follower = user_of peer (parse_identity_id cert.follower_id) (refuse_if-ok _ _ theirs);
        followee = user_of server_id (parse_identity_id cert.followee_id) (refuse_if-ok _ _ ours);
        own_key = requester_key_belongs_to-OwnKey _ _ _ (double_not _ (refuse_if-ok _ _ own));
        signed = (armor, or_fail-some _ resolved, double_not _ (refuse_if-ok _ _ signed));
        countersigned = countersignature_sound peer cert.server_signature _ countersigned;
      }

  is_user :
      (server_id user : String) (o : Option (String × String))
      → o ≡ some (user, server_id)
      → is_user_of server_id o ≡ true
  unfolding is_user_of
  is_user server_id user o e = rw (e, is_user_of) ((eq_iff server_id server_id).1 refl)

  countersignature_passes :
      (peer : String) (sig : ServerSignature) (payload : String → Payload) (fingerprint : String)
      (pin : Pin) (armor : String)
      → parse_identity_id sig.key_id ≡ some (fingerprint, peer)
      → peers.pin peer ≡ some pin
      → server_armor peer pin sig fingerprint ≡ some armor
      → crypto.verify_signature (payload fingerprint) sig.armor armor ≡ true
      → verify_peer_countersignature peer sig payload ≡ ok tt
  unfolding verify_peer_countersignature
  countersignature_passes peer sig payload fingerprint pin armor parsed pinned found checked =
      rw (verify_peer_countersignature, parsed, (eq_iff peer peer).1 refl, pinned, found, checked)
        refl

  Genuine-verify :
      (server_id peer : String) (cert : FollowCert)
      → Genuine server_id peer cert
      → verify_foreign_follow server_id peer cert ≡ ok tt
  unfolding verify_foreign_follow
  Genuine-verify server_id peer cert g =
      let (follower, theirs) = g.follower in
      let (followee, ours) = g.followee in
      let (armor, resolved, signed) = g.signed in
      let (fingerprint, pin, key, parsed, pinned, whose, checked) = g.countersigned in
      let found = KeyOf-server_armor peer pin cert.server_signature fingerprint key whose in
      let passes =
        countersignature_passes peer cert.server_signature
          (λ f.
            follow_server cert.follower_id cert.followee_id cert.follow f cert.user_signature.armor
              cert.server_signature.signed_at)
          fingerprint pin key parsed pinned found checked in
      let here = is_user peer follower _ theirs in
      let local = is_user server_id followee _ ours in
      let own = OwnKey-requester_key_belongs_to _ _ _ g.own_key in
      rw (verify_foreign_follow, here, local, own, resolved, signed, passes) refl

  -- A peer's follow passes exactly when it is by a user of that peer, of a user of this server,
  -- signed with a key whose id is the follower's with a fingerprint appended, and countersigned
  -- with a key of that peer: the pinned one where the signature names it, else the one that the
  -- peer is asked for.
  pub verify_foreign_follow_iff :
      (server_id peer : String) (cert : FollowCert)
      → (verify_foreign_follow server_id peer cert ≡ ok tt) ↔ Genuine server_id peer cert
  verify_foreign_follow_iff server_id peer cert =
      (verify-Genuine server_id peer cert, Genuine-verify server_id peer cert)
