-- ===== src/Follows.antt =====
-- src/backend/follows.go: the certificate that this server keeps of who follows whom, the edges that
-- follow from it, and to whom it is owed. A signature's rows stand in the certificate.
pub mod Edges
pub mod Steps
pub mod Saved
pub mod Foreign
use syrinx.Common.{
  ℕ, String, Bool, true, false, ◌&&◌, ◌||◌, not, ◌==◌, if◌then◌else◌, nat_eq, ltb, Option, none,
  some, List, [], ◌∷◌, ◌++◌, any, find, select, update, is_none,
}
use syrinx.Identity.{parse_identity_id}
use syrinx.Store.{UserSignature, ServerSignature, PeerEvent, Db}
use syrinx.Store.PeerEvents.{enqueue_peer_event_for}

pub record FollowCert : Type 0 where
  pub follower_id : String
  pub followee_id : String
  pub follow : Bool
  pub user_signature : UserSignature
  pub server_signature : ServerSignature

-- user_following holds (user, whom they follow), user_followers (user, who follows them), and
-- follow_event_queue (follower, followee).
pub record Follows : Type 0 where
  pub follow_certs : List FollowCert
  pub user_following : List (String × String)
  pub user_followers : List (String × String)
  pub follow_event_queue : List (String × String)
  pub db : Db

abbrev pub same_row : String → String → String × String → Bool
same_row a b row = row.0 == a && row.1 == b

abbrev pub of_pair : String → String → FollowCert → Bool
of_pair follower_id followee_id c = c.follower_id == follower_id && c.followee_id == followee_id

-- GetFollowCert
unfoldable pub get_follow_cert : Follows → String → String → Option FollowCert
get_follow_cert s follower_id followee_id = find (of_pair follower_id followee_id) s.follow_certs

-- INSERT … ON CONFLICT DO NOTHING
unfoldable pub add_row : String → String → List (String × String) → List (String × String)
add_row a b rows = if any (same_row a b) rows then rows else rows ++ (a, b) ∷ []

unfoldable pub delete_row : String → String → List (String × String) → List (String × String)
delete_row a b rows = select (λ r. not (same_row a b r)) rows

unfoldable pub set_row : Bool → String → String → List (String × String) → List (String × String)
unfolding add_row delete_row
set_row follow a b rows = if follow then add_row a b rows else delete_row a b rows

unfoldable pub put_cert : FollowCert → List FollowCert → List FollowCert
put_cert cert certs =
    if any (of_pair cert.follower_id cert.followee_id) certs
    then update (of_pair cert.follower_id cert.followee_id)
        (λ c. record c {
          follow = cert.follow;
          user_signature = cert.user_signature;
          server_signature = cert.server_signature;
        })
        certs
    else certs ++ cert ∷ []

home_is : String → Option (String × String) → Bool
home_is server_id none = false
home_is server_id (some (user, home)) = home == server_id

is_owed_to_peer : String → String → PeerEvent → Bool
is_owed_to_peer follower_id followee_id e = elim e.object_id [
  | none ↦ false
  | some object ↦ e.kind == "follow" && e.subject_id == follower_id && object == followee_id
]

-- Is the pair's certificate owed to a client or to a peer?
unfoldable pub is_owed_cert : Follows → String → String → Bool
unfolding is_owed_to_peer
is_owed_cert s follower_id followee_id =
    any (same_row follower_id followee_id) s.follow_event_queue
    || any (is_owed_to_peer follower_id followee_id) s.db.peer_event_queue

-- dropSettledUnfollowTx, and DropSettledUnfollow
unfoldable pub drop_settled_unfollow : Follows → String → String → Follows
unfolding is_owed_cert
drop_settled_unfollow s follower_id followee_id = record s {
  follow_certs =
      select
        (λ c. not (
          of_pair follower_id followee_id c
          && not c.follow
          && not (is_owed_cert s follower_id followee_id)))
        s.follow_certs;
}

-- Is a newer certificate of the pair, or one as old, held?
unfoldable pub is_stale : FollowCert → Option FollowCert → Bool
is_stale cert none = false
is_stale cert (some held) =
    not (ltb held.server_signature.signed_at cert.server_signature.signed_at)

module _ (server_id : String) where
  unfoldable pub is_local : String → Bool
  unfolding home_is
  is_local id = home_is server_id (parse_identity_id id)

  -- setFollowEdgesTx
  unfoldable pub set_follow_edges : Follows → String → String → Bool → Follows
  unfolding is_local set_row
  set_follow_edges s follower_id followee_id follow = record s {
    user_following =
        if is_local follower_id
        then set_row follow follower_id followee_id s.user_following
        else s.user_following;
    user_followers =
        if is_local followee_id
        then set_row follow followee_id follower_id s.user_followers
        else s.user_followers;
  }

  unfoldable pub owe_client : Follows → String → String → Follows
  unfolding add_row
  owe_client s follower_id followee_id = record s {
    follow_event_queue = add_row follower_id followee_id s.follow_event_queue;
  }

  unfoldable pub owe_home : Follows → String → String → Option (String × String) → Follows
  unfolding owe_client
  owe_home s follower_id followee_id none = owe_client s follower_id followee_id
  owe_home s follower_id followee_id (some (user, home)) =
      if home == server_id
      then owe_client s follower_id followee_id
      else record s { db = enqueue_peer_event_for s.db home "follow" follower_id followee_id }

  -- oweFollowCertTx
  unfoldable pub owe_follow_cert : Follows → String → String → Follows
  unfolding owe_home
  owe_follow_cert s follower_id followee_id =
      owe_home s follower_id followee_id (parse_identity_id followee_id)

  -- saveFollowCertTx: whether it was applied, and the tables
  unfoldable pub save_follow_cert : Follows → FollowCert → Bool → Bool × Follows
  unfolding is_stale get_follow_cert put_cert set_follow_edges owe_follow_cert drop_settled_unfollow
  save_follow_cert s cert owe =
      if is_stale cert (get_follow_cert s cert.follower_id cert.followee_id)
      then (false, s)
      else let stored = record s { follow_certs = put_cert cert s.follow_certs } in
        let linked = set_follow_edges stored cert.follower_id cert.followee_id cert.follow in
        let owed =
          if owe then owe_follow_cert linked cert.follower_id cert.followee_id else linked in
        (true, drop_settled_unfollow owed cert.follower_id cert.followee_id)

  -- follow_event_queue goes with its certificate.
  unfoldable pub unlink : Follows → String → String → Follows
  unfolding set_follow_edges delete_row
  unlink s follower_id followee_id =
      let unlinked = set_follow_edges s follower_id followee_id false in
      record unlinked {
        follow_certs = select (λ c. not (of_pair follower_id followee_id c)) unlinked.follow_certs;
        follow_event_queue = delete_row follower_id followee_id unlinked.follow_event_queue;
      }

  unfoldable pub undo : Follows → String → String → ℕ → Option FollowCert → Follows
  unfolding unlink
  undo s follower_id followee_id signed_at none = s
  undo s follower_id followee_id signed_at (some held) =
      if nat_eq held.server_signature.signed_at signed_at
      then unlink s follower_id followee_id
      else s

  -- UndoRefusedFollow
  unfoldable pub undo_refused_follow : Follows → String → String → ℕ → Follows
  unfolding undo
  undo_refused_follow s follower_id followee_id signed_at =
      undo s follower_id followee_id signed_at
        (find (λ c. of_pair follower_id followee_id c && c.follow) s.follow_certs)

same_kind : Bool → Bool → Bool
same_kind true b = b
same_kind false b = not b

-- AckFollowEvent
unfoldable pub ack_follow_event : Follows → String → String → Bool → Follows
unfolding same_kind drop_settled_unfollow delete_row
ack_follow_event s follower_id followee_id follow =
    let acked =
      if any (λ c. of_pair follower_id followee_id c && same_kind follow c.follow) s.follow_certs
      then record s { follow_event_queue = delete_row follower_id followee_id s.follow_event_queue }
      else s in
    drop_settled_unfollow acked follower_id followee_id
