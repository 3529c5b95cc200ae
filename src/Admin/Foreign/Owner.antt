-- ===== src/Admin/Foreign/Owner.antt =====
-- requesterKeyBelongsTo of src/backend/federation_relay.go: whose key an id names.
use syrinx.Common.{
  String, true, ◌==◌, Option, none, some, ◌≡◌, refl, sym, ap, subst, ◌∙◌, arith, eq_iff, and-true,
}
use syrinx.Identity.{canonical_id, parse_identity_id, parse_key_fingerprint, append_entity}
use syrinx.Identity.Format.{canonical_id-parse_identity_id, parse_key_fingerprint_sound}
use syrinx.Admin.Foreign.{owned_by, requester_key_belongs_to}

-- The key's id is the user's with a fingerprint appended, and the user is one of the peer's.
pub record OwnKey (key_id user_id peer_server_id : String) : Type 0 where
  pub user : String
  pub fingerprint : String
  pub parsed : parse_key_fingerprint key_id ≡ some (user, peer_server_id, fingerprint)
  pub home : parse_identity_id user_id ≡ some (user, peer_server_id)
  pub spelled : append_entity user_id fingerprint ≡ key_id

owned_by-OwnKey :
    (key_id user_id peer : String) (o : Option (String × String × String))
    → parse_key_fingerprint key_id ≡ o
    → owned_by user_id peer o ≡ true
    → OwnKey key_id user_id peer
unfolding owned_by
owned_by-OwnKey key_id user_id peer none e h = ground arith
owned_by-OwnKey key_id user_id peer (some (owner, server_id, fingerprint)) e h =
    let (at_peer, theirs) = and-true (server_id == peer) _ h in
    let (id, parsed, spelled) = parse_key_fingerprint_sound key_id e in
    let same : id ≡ user_id =
      sym (canonical_id-parse_identity_id id parsed).0
      ∙ (eq_iff (canonical_id server_id owner none) user_id).0 theirs in
    let home : server_id ≡ peer = (eq_iff server_id peer).0 at_peer in
    record {
      user = owner;
      fingerprint = fingerprint;
      parsed = e ∙ ap (λ s. some (owner, s, fingerprint)) home;
      home =
          subst (λ x. parse_identity_id x ≡ some (owner, peer)) same
            (parsed ∙ ap (λ s. some (owner, s)) home);
      spelled = subst (λ x. append_entity x fingerprint ≡ key_id) same spelled;
    }

pub requester_key_belongs_to-OwnKey :
    (key_id user_id peer : String)
    → requester_key_belongs_to key_id user_id peer ≡ true
    → OwnKey key_id user_id peer
unfolding requester_key_belongs_to
requester_key_belongs_to-OwnKey key_id user_id peer h =
    owned_by-OwnKey key_id user_id peer (parse_key_fingerprint key_id) refl h

pub OwnKey-requester_key_belongs_to :
    (key_id user_id peer : String)
    → OwnKey key_id user_id peer
    → requester_key_belongs_to key_id user_id peer ≡ true
unfolding requester_key_belongs_to owned_by
OwnKey-requester_key_belongs_to key_id user_id peer k =
    let spelled : canonical_id peer k.user none ≡ user_id =
      (canonical_id-parse_identity_id user_id k.home).0 in
    rw
      (
        requester_key_belongs_to,
        k.parsed,
        owned_by,
        (eq_iff peer peer).1 refl,
        (eq_iff _ _).1 spelled,
      )
      refl
