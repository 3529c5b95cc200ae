-- ===== src/Delivery.antt =====
-- Sending each peer its event queue: drainPeerEventsWith of src/backend/federation_delivery.go and
-- the operations of src/backend/services.go on the queue and on a drain's claim of it. Building an
-- event's body and calling the peer are parameters over a state W of the peer, the clock and the
-- tables that Db does not hold; calls and hooks write blocks, follow_certs and the keys of a peer's
-- users, none of the queue, and of server_mesh what an answer in lockdown does. They read Db.
pub mod Queue
pub mod Claim
pub mod Drain
pub mod Outcome
pub mod Numbered
pub mod Enqueue
use syrinx.Common.{
  ℕ, zero, suc, ◌+◌, String, Bool, true, false, ◌&&◌, ◌||◌, not, ◌==◌, if◌then◌else◌, Option, none,
  some, List, [], ◌∷◌, any, find, select, update, is_none, leb, ltb, nat_eq, map,
}
use syrinx.Store.{Peer, PeerEvent, Db}

-- INSERT into a list in the order of the ids
unfoldable pub insert : PeerEvent → List PeerEvent → List PeerEvent
insert e [] = e ∷ []
insert e (x ∷ xs) = let rest = insert e xs in if leb e.id x.id then e ∷ x ∷ xs else x ∷ rest

-- ORDER BY id
unfoldable pub by_id : List PeerEvent → List PeerEvent
unfolding insert
by_id [] = []
by_id (x ∷ xs) = insert x (by_id xs)

-- SELECT … WHERE server_id = peer ORDER BY id
unfoldable pub owed : String → List PeerEvent → List PeerEvent
unfolding by_id
owed peer queue = by_id (select (λ e. e.server_id == peer) queue)

unfoldable pub first : List PeerEvent → Option PeerEvent
first [] = none
first (x ∷ xs) = some x

unfoldable pub up : Peer → Bool
up m = is_none m.down_at && is_none m.revoked_at

unfoldable pub peer_up : Db → String → Bool
unfolding up
peer_up db peer = any (λ m. m.server_id == peer && up m) db.server_mesh

-- NextPeerEvent
unfoldable pub next_peer_event : Db → String → Option PeerEvent
unfolding peer_up owed first
next_peer_event db peer = if peer_up db peer then first (owed peer db.peer_event_queue) else none

-- DeletePeerEvent
unfoldable pub delete_peer_event : Db → ℕ → Db
delete_peer_event db id = record db {
  peer_event_queue = select (λ e. not (nat_eq e.id id)) db.peer_event_queue;
}

-- `delivery_claimed_at IS NULL OR delivery_claimed_at < CURRENT_TIMESTAMP - INTERVAL '1 minute'`,
-- in seconds
unfoldable pub unclaimed : ℕ → Option ℕ → Bool
unclaimed now none = true
unclaimed now (some at) = ltb (at + 60) now

unfoldable pub claimable : String → ℕ → Peer → Bool
unfolding unclaimed up
claimable peer now m = m.server_id == peer && (up m && unclaimed now m.delivery_claimed_at)

unfoldable pub set_claim : Option ℕ → Peer → Peer
set_claim at m = record m { delivery_claimed_at = at }

-- ClaimPeerEvents: whether a row was updated, and the tables after it
unfoldable pub claim_peer_events : Db → String → ℕ → Bool × Db
unfolding claimable set_claim
claim_peer_events db peer now = (
  any (claimable peer now) db.server_mesh,
  record db { server_mesh = update (claimable peer now) (set_claim (some now)) db.server_mesh },
)

unfoldable pub set_peer_claim : Db → String → Option ℕ → Db
unfolding set_claim
set_peer_claim db peer at = record db {
  server_mesh = update (λ m. m.server_id == peer) (set_claim at) db.server_mesh;
}

-- RefreshPeerEventsClaim
unfoldable pub refresh_peer_events_claim : Db → String → ℕ → Db
unfolding set_peer_claim
refresh_peer_events_claim db peer now = set_peer_claim db peer (some now)

-- ReleasePeerEvents
unfoldable pub release_peer_events : Db → String → Db
unfolding set_peer_claim
release_peer_events db peer = set_peer_claim db peer none

-- ListPeersOwedEvents
unfoldable pub list_peers_owed_events : Db → List String
list_peers_owed_events db =
    map (λ m. m.server_id) (select (λ m. is_none m.revoked_at) db.server_mesh)

-- What build returns: a path and a body, errPeerEventGone, or another error.
pub data Built (Body : Type 0) : Type 0 where
  message : String → Body → Built Body
  gone : Built Body
  broken : Built Body

unfoldable pub set_down : ℕ → Peer → Peer
set_down at m = record m { down_at = some at }

-- SetPeerDown with `down`, of suspendIfPeerInLockdown
unfoldable pub suspend_if : Bool → Db → String → ℕ → Db
unfolding set_down
suspend_if lockdown db peer now = record db {
  server_mesh =
      if lockdown
      then update (λ m. m.server_id == peer) (set_down now) db.server_mesh
      else db.server_mesh;
}

-- What a call comes back with: no answer, or a status, whether the answer's recovering header says
-- lockdown, and whether its body could be read.
pub data Reply : Type 0 where
  silent : Reply
  reply : ℕ → Bool → Bool → Reply

-- peerEventSender
pub record Sender (W Body : Type 0) : Type 0 where
  pub build : Db → W → PeerEvent → Built Body
  pub on_refused : Option (Db → W → String → PeerEvent → Body → W)
  pub on_settled : Option (Db → W → PeerEvent → W)

-- How one turn of the loop ends: the event stays and the drain stops, with whether the peer is in
-- lockdown; it is dropped without a call; or the peer answered it for good, with what to run once
-- it has left the queue.
pub data Turn (W : Type 0) : Type 0 where
  stopped : Bool → W → Turn W
  dropped : W → Turn W
  answered : W → (Db → W → W) → Turn W

-- `err != nil || status >= 500 || status == http.StatusTooManyRequests`
unfoldable pub not_taken : ℕ → Bool
not_taken status = leb 500 status || nat_eq status 429

-- suspendIfPeerInLockdown's condition
unfoldable pub in_lockdown : ℕ → Bool → Bool
in_lockdown status header = nat_eq status 503 && header

refuse_hook :
    {W Body : Type 0}
    → Option (Db → W → String → PeerEvent → Body → W)
    → Db
    → String
    → PeerEvent
    → Body
    → W
    → W
refuse_hook none db peer ev body w = w
refuse_hook (some f) db peer ev body w = f db w peer ev body

refuse : {W Body : Type 0} → Sender W Body → Db → String → PeerEvent → Body → ℕ → W → W
unfolding refuse_hook
refuse sender db peer ev body status w =
    if leb 400 status then refuse_hook sender.on_refused db peer ev body w else w

settle_hook : {W : Type 0} → Option (Db → W → PeerEvent → W) → PeerEvent → Db → W → W
settle_hook none ev db w = w
settle_hook (some f) ev db w = f db w ev

-- The peer's base_url, as NextPeerEvent joins it to each event
unfoldable pub base_url_of : Db → String → String
base_url_of db peer = elim (find (λ m. m.server_id == peer) db.server_mesh) [
  | none ↦ ""
  | some m ↦ m.base_url
]

module _ {W Body : Type 0} (sender_for : String → Option (Sender W Body))
    (call : W → String → String → String → Body → Reply × W) (now : W → ℕ) where
  unfoldable pub answer : Sender W Body → Db → String → PeerEvent → Body → Reply × W → Turn W
  unfolding not_taken in_lockdown refuse settle_hook
  answer sender db peer ev body (silent, w) = stopped false w
  answer sender db peer ev body (reply status lockdown read, w) =
      if not read || not_taken status
      then stopped (in_lockdown status lockdown) w
      else answered (refuse sender db peer ev body status w) (settle_hook sender.on_settled ev)

  -- One turn of the loop over the event at the head of the queue.
  unfoldable pub turn : String → String → Db → PeerEvent → W → Turn W
  unfolding answer
  turn peer base_url db ev w = elim (sender_for ev.kind) [
    | none ↦ dropped w
    | some sender ↦ elim (sender.build db w ev) [
      | gone ↦ dropped w
      | broken ↦ stopped false w
      | message path body ↦ answer sender db peer ev body (call w peer base_url path body)
    ]
  ]

  -- The loop of drainPeerEventsWith, none when the fuel is used up. A lockdown is written by the
  -- call; it always stops the turn.
  unfoldable pub drain_loop : ℕ → String → Db → W → Option (Db × W)
  unfolding turn base_url_of next_peer_event delete_peer_event refresh_peer_events_claim suspend_if
  drain_loop zero peer db w = none
  drain_loop (suc fuel) peer db w = elim (next_peer_event db peer) [
    | none ↦ some (db, w)
    | some ev ↦ elim (turn peer (base_url_of db peer) db ev w) [
      | stopped lockdown w' ↦ some (suspend_if lockdown db peer (now w'), w')
      | dropped w' ↦ drain_loop fuel peer (delete_peer_event db ev.id) w'
      | answered w' hook ↦
          let settled = hook (delete_peer_event db ev.id) w' in
          drain_loop fuel peer
            (refresh_peer_events_claim (delete_peer_event db ev.id) peer (now settled)) settled
    ]
  ]

  unfoldable pub release : String → Option (Db × W) → Option (Db × W)
  unfolding release_peer_events
  release peer none = none
  release peer (some (db, w)) = some (release_peer_events db peer, w)

  -- drainPeerEventsWith
  unfoldable pub drain_peer_events_with : ℕ → String → Db → W → Option (Db × W)
  unfolding claim_peer_events drain_loop release
  drain_peer_events_with fuel peer db w =
      let (claimed, claimed_db) = claim_peer_events db peer (now w) in
      if claimed then release peer (drain_loop fuel peer claimed_db w) else some (db, w)
