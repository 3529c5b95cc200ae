-- ===== src/Witness/FollowRuns.antt =====
-- A follow, an unfollow that is newer, and an older follow that comes late.
use syrinx.Common.{
  ◌↔◌, ℕ, ◌≤◌, ◌<◌, Bool, true, false, none, some, [], ◌∷◌, ◌⊎◌, ◌≡◌, refl, ok, split_last,
}
use syrinx.Follows.{FollowCert, Follows, get_follow_cert, save_follow_cert}
use syrinx.Follows.Edges.{is_active}
use syrinx.Follows.Steps.{Linked, FollowStep, FollowSteps, FollowSteps-Linked}
use syrinx.Follows.Saved.{save_follow_cert-is_active}
use syrinx.Identity.{canonical_id, parse_identity_id, parse_key_fingerprint}
use syrinx.Admin.Foreign.{requester_key_belongs_to}
use syrinx.Follows.Foreign.{
  Peers, Genuine, server_armor, verify_peer_countersignature, verify_foreign_follow,
  verify_foreign_follow_iff,
}
use syrinx.Witness.Data.{start, crypto}

abbrev cert : Bool → ℕ → FollowCert
cert follow at = record {
  follower_id = "a@s";
  followee_id = "b@t";
  follow = follow;
  user_signature = record { key_id = "a@s/A"; armor = "x" };
  server_signature = record { key_id = "F@s"; armor = "server"; signed_at = at };
}

abbrev nobody : Follows
nobody = record {
  follow_certs = [];
  user_following = [];
  user_followers = [];
  follow_event_queue = [];
  db = start;
}

abbrev follows : Follows
follows = record nobody { follow_certs = cert true 10 ∷ []; user_following = ("a@s", "b@t") ∷ [] }

nobody-Linked : Linked "s" nobody
nobody-Linked = record { following = λ a b home. refl; followers = λ a b home. refl }

abbrev followed : Follows
followed = (save_follow_cert "s" nobody (cert true 10) true).1

abbrev unfollowed : Follows
unfollowed = (save_follow_cert "s" followed (cert false 20) true).1

FollowSteps-Linked_example : Linked "s" unfollowed
FollowSteps-Linked_example = FollowSteps-Linked "s" {s = nobody} {t = unfollowed} nobody-Linked (
    FollowSteps.more nobody followed unfollowed (FollowStep.saved nobody (cert true 10) true) (
      FollowSteps.more followed unfollowed unfollowed
        (FollowStep.saved followed (cert false 20) true) (FollowSteps.done unfollowed)))

save_follow_cert-is_active_example :
    let held_cert = get_follow_cert follows "a@s" "b@t" in
    let saved = save_follow_cert "s" follows (cert false 20) true in
    ((saved ≡ (false, follows))
      × ((held : FollowCert) × (held_cert ≡ some held) × (20 ≤ held.server_signature.signed_at)))
    ⊎ ((saved.0 ≡ true)
        × (is_active saved.1.follow_certs "a@s" "b@t" ≡ false)
        × ((held_cert ≡ none)
            ⊎ ((held : FollowCert) × (held_cert ≡ some held)
                × (held.server_signature.signed_at < 20))))
save_follow_cert-is_active_example = save_follow_cert-is_active "s" follows (cert false 20) true

abbrev peers : Peers
peers = record {
  resolve = λ id. some "b key";
  pin = λ server. some (record { key_id = "P@t"; armor = "peer key" });
  fetch_server_key = λ server fingerprint. none;
}

abbrev foreign_cert : FollowCert
foreign_cert = record {
  follower_id = "b@t";
  followee_id = "a@s";
  follow = true;
  user_signature = record { key_id = "b@t/B"; armor = "b key" };
  server_signature = record { key_id = "P@t"; armor = "peer key"; signed_at = 10 };
}

foreign_run : verify_foreign_follow crypto peers "s" "t" foreign_cert ≡ ok tt
unfolding verify_foreign_follow parse_identity_id split_last requester_key_belongs_to
    parse_key_fingerprint canonical_id verify_peer_countersignature server_armor
foreign_run = refl

verify_foreign_follow_iff_example :
    (verify_foreign_follow crypto peers "s" "t" foreign_cert ≡ ok tt)
    ↔ Genuine crypto peers "s" "t" foreign_cert
verify_foreign_follow_iff_example = verify_foreign_follow_iff crypto peers "s" "t" foreign_cert
