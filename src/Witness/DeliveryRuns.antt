-- ===== src/Witness/DeliveryRuns.antt =====
-- A peer's queue drained, with a peer that takes one event and is then overloaded, and one that takes
-- all. The state outside is the number of calls made, which is the clock as well.
use syrinx.Common.{
  ℕ, ◌+◌, String, true, false, if◌then◌else◌, nat_eq, Option, none, some, Bool, List, [], ◌∷◌, ◌≡◌,
  refl, ne_of_eq-false, ap, ◌<◌, length,
}
use syrinx.Store.{Peer, PeerEvent, Db}
use syrinx.Store.PeerEvents.{enqueue_peer_event, enqueue_published_removal, enqueue_peer_event_for}
use syrinx.Delivery.{
  Built, Reply, suspend_if, in_lockdown, Sender, insert, by_id, owed, up, delete_peer_event,
  unclaimed, claimable, claim_peer_events, refresh_peer_events_claim, release_peer_events,
  base_url_of, not_taken, answer, turn, drain_peer_events_with,
}
use syrinx.Delivery.Claim.{claim_peer_events_lease}
use syrinx.Delivery.Drain.{deliver, Delivered}
use syrinx.Delivery.Numbered.{Numbered}
use syrinx.Delivery.Enqueue.{writers-Numbered}
use syrinx.Delivery.Outcome.{
  Settles, drain_peer_events_with-deliver, drain_peer_events_with_ends,
  drain_peer_events_with_empties,
}
use syrinx.Witness.Data.{start}
use native.Mathlib.Omega.{arith}

abbrev event : ℕ → String → String → PeerEvent
event id peer kind = record {
  id = id;
  server_id = peer;
  kind = kind;
  subject_id = "x";
  object_id = none;
}

abbrev peer_row : String → Peer
peer_row id = record {
  server_id = id;
  base_url = "https://peer";
  revoked_at = none;
  down_at = none;
  delivery_claimed_at = none;
}

abbrev queued : Db
queued = record start {
  server_mesh = peer_row "p" ∷ peer_row "q" ∷ [];
  peer_event_queue =
      event 4 "p" "key_revocation" ∷ event 2 "q" "server_key" ∷ event 1 "p" "server_key" ∷ [];
  next_event_id = 5;
}

abbrev sender : Sender ℕ String
sender = record {
  build = λ db w ev. Built.message "/relay" ev.subject_id;
  on_refused = none;
  on_settled = none;
}

abbrev senders : String → Option (Sender ℕ String)
senders kind = some sender

abbrev overloaded : ℕ → String → String → String → String → Reply × ℕ
overloaded w peer base_url path body =
    (Reply.reply (if nat_eq w 100 then 204 else 503) true true, w + 1)

abbrev willing : ℕ → String → String → String → String → Reply × ℕ
willing w peer base_url path body = (Reply.reply 204 false true, w + 1)

abbrev clock : ℕ → ℕ
clock w = w

queued-Numbered : Numbered queued
queued-Numbered = record {
  distinct = (
    (λ e. omega (arith, e), (λ e. omega (arith, e), tt)),
    ((λ e. omega (arith, e), tt), (tt, tt)),
  );
  below = (ground arith, (ground arith, (ground arith, tt)));
  unique = (
    (
      λ k. ne_of_eq-false "p" "q" refl (ap (λ t. t.0) k),
      (λ k. ne_of_eq-false "key_revocation" "server_key" refl (ap (λ t. t.1) k), tt),
    ),
    ((λ k. ne_of_eq-false "q" "p" refl (ap (λ t. t.0) k), tt), (tt, tt)),
  );
}

is_claimed : (claim_peer_events queued "p" 100).0 ≡ true
unfolding claim_peer_events claimable up unclaimed
is_claimed = refl

two_owed : length (owed "p" queued.peer_event_queue) < 3
unfolding owed by_id insert
two_owed = ground arith

-- The first event is taken, the second waits: the peer has gone into lockdown.
drain_peer_events_with-deliver_example :
    (db' : Db) × (w' : ℕ) × (drain_peer_events_with senders overloaded clock 3 "p" queued 100
      ≡ some (db', w'))
    × ((done : Delivered senders overloaded clock "p"
          (claim_peer_events queued "p" 100).1
          100
          db'
          w')
        × (db'.server_mesh
            ≡ (release_peer_events
                (suspend_if done.lockdown queued "p" (clock w'))
                "p").server_mesh))
drain_peer_events_with-deliver_example =
    drain_peer_events_with-deliver senders overloaded clock 3 "p" queued 100
      queued-Numbered.distinct two_owed is_claimed

one_left :
    ◌≡◌ {A = List PeerEvent × (Bool × ℕ)}
      (deliver senders overloaded clock "p" "https://peer" queued 100
        (owed "p" queued.peer_event_queue))
      (event 4 "p" "key_revocation" ∷ [], (true, 102))
unfolding owed by_id insert deliver turn answer not_taken in_lockdown
one_left = refl

drain_peer_events_with_ends_example :
    (db' : Db) × (w' : ℕ) × (drain_peer_events_with senders overloaded clock 3 "p" queued 100
      ≡ some (db', w'))
drain_peer_events_with_ends_example =
    drain_peer_events_with_ends senders overloaded clock 3 "p" queued 100 queued-Numbered.distinct
      two_owed

takes :
    (ev : PeerEvent) (d : Db) (v : ℕ)
    → Settles (turn senders willing clock "p" "https://peer" d ev v)
unfolding turn answer not_taken
takes ev d v = tt

base_url_is : base_url_of queued "p" ≡ "https://peer"
unfolding base_url_of
base_url_is = refl

drain_peer_events_with_empties_example :
    (db' : Db) × (w' : ℕ) × (drain_peer_events_with senders willing clock 3 "p" queued 100
      ≡ some (db', w'))
    × (owed "p" db'.peer_event_queue ≡ [])
unfolding base_url_of owed by_id insert
drain_peer_events_with_empties_example =
    drain_peer_events_with_empties senders willing clock 3 "p" queued 100 queued-Numbered.distinct
      two_owed is_claimed
      (takes (event 1 "p" "server_key"), (takes (event 4 "p" "key_revocation"), tt))

claim_peer_events_lease_example :
    let claimed = (claim_peer_events queued "p" 100).1 in
    ((claim_peer_events claimed "p" 160).0 ≡ false)
    × ((claim_peer_events (refresh_peer_events_claim claimed "p" 150) "p" 210).0 ≡ false)
    × ((claim_peer_events (release_peer_events claimed "p") "p" 160).0 ≡ true)
claim_peer_events_lease_example =
    claim_peer_events_lease queued "p" 100 160 150 210 ((refl, tt), (tt, tt)) is_claimed
      (ground arith) (ground arith)

writers-Numbered_example :
    Numbered (enqueue_peer_event queued "key_revocation" "x")
    × Numbered (enqueue_published_removal queued "key_revocation" "x")
    × Numbered (enqueue_peer_event_for queued "p" "key_revocation" "x" "o")
    × Numbered (delete_peer_event queued 1)
writers-Numbered_example = writers-Numbered queued "p" "key_revocation" "x" "o" 1 queued-Numbered
