-- ===== src/Delivery/Numbered.antt =====
-- Appending to peer_event_queue: enqueuePeerEventTx and enqueuePublishedRemovalTx of
-- src/backend/peer_event_queue.go.
use syrinx.Common.{
  ◌+◌, ◌<◌, String, true, false, ◌&&◌, ◌==◌, Option, none, List, [], ◌∷◌, ◌++◌, All, All-append,
  All-map, Bool-cases, inl, inr, ◌≡◌, ◌≢◌, refl, ap, arith, eq_iff, Option-cases, if-both,
}
use syrinx.Store.{Peer, PeerEvent, Db}
use syrinx.Store.PeerEvents.{
  no_object, is_owed, owe, owe_all, published, enqueue_peer_event, enqueue_published_removal,
}
use syrinx.Delivery.Queue.{DistinctIds}

-- What UNIQUE NULLS NOT DISTINCT compares
abbrev pub event_key : PeerEvent → String × String × String × Option String
event_key e = (e.server_id, e.kind, e.subject_id, e.object_id)

abbrev pub DistinctKeys : List PeerEvent → Type 0
DistinctKeys [] = Unit
DistinctKeys (x ∷ xs) = All (λ y. event_key x ≢ event_key y) xs × DistinctKeys xs

-- The events' ids differ and are under the next one, and no two events are of one key.
pub record Numbered (db : Db) : Type 0 where
  pub distinct : DistinctIds db.peer_event_queue
  pub below : All (λ e. e.id < db.next_event_id) db.peer_event_queue
  pub unique : DistinctKeys db.peer_event_queue

DistinctIds-append :
    (xs : List PeerEvent) (e : PeerEvent)
    → DistinctIds xs
    → All (λ x. x.id < e.id) xs
    → DistinctIds (xs ++ e ∷ [])
DistinctIds-append [] e d b = (tt, tt)
DistinctIds-append (x ∷ xs) e d b = (
  All-append (λ y. x.id ≢ y.id) xs (e ∷ []) d.0 (ground (arith, b.0), tt),
  DistinctIds-append xs e d.1 b.1,
)

DistinctKeys-append :
    (xs : List PeerEvent) (e : PeerEvent)
    → DistinctKeys xs
    → All (λ x. event_key x ≢ event_key e) xs
    → DistinctKeys (xs ++ e ∷ [])
DistinctKeys-append [] e d b = (tt, tt)
DistinctKeys-append (x ∷ xs) e d b = (
  All-append (λ y. event_key x ≢ event_key y) xs (e ∷ []) d.0 (b.0, tt),
  DistinctKeys-append xs e d.1 b.1,
)

-- Appending an event of a new key with the next id.
pub append-Numbered :
    (db : Db) (e : PeerEvent)
    → Numbered db
    → e.id ≡ db.next_event_id
    → All (λ x. event_key x ≢ event_key e) db.peer_event_queue
    → Numbered (record db {
      peer_event_queue = db.peer_event_queue ++ e ∷ [];
      next_event_id = db.next_event_id + 1;
    })
append-Numbered db e n at new = record {
  distinct =
      DistinctIds-append db.peer_event_queue e n.distinct
        (All-map _ _ db.peer_event_queue (λ x p. omega (arith, p, at)) n.below);
  below =
      All-append (λ x. x.id < db.next_event_id + 1) db.peer_event_queue (e ∷ [])
        (All-map _ _ db.peer_event_queue (λ x p. omega (arith, p)) n.below) (omega (arith, at), tt);
  unique = DistinctKeys-append db.peer_event_queue e n.unique new;
}

pub same_text : {s t : String} → s ≡ t → (s == t) ≡ true
same_text {s} {t} e = (eq_iff s t).1 e

same_owed :
    (e : PeerEvent) (server_id kind subject_id : String)
    → event_key e ≡ (server_id, kind, subject_id, none)
    → (e.server_id == server_id
        && e.kind == kind
        && e.subject_id == subject_id
        && no_object e.object_id)
      ≡ true
unfolding no_object
same_owed e server_id kind subject_id k =
    rw
      (
        same_text (ap (λ t. t.0) k),
        same_text (ap (λ t. t.1) k),
        same_text (ap (λ t. t.2) k),
        ap (λ t. t.3) k,
      )
      refl

not_owed :
    (queue : List PeerEvent) (server_id kind subject_id : String)
    → is_owed queue server_id kind subject_id ≡ false
    → All (λ x. event_key x ≢ (server_id, kind, subject_id, none)) queue
unfolding is_owed
not_owed [] server_id kind subject_id h = tt
not_owed (x ∷ xs) server_id kind subject_id h = (
  λ k. let t = same_owed x server_id kind subject_id k in ground arith,
  not_owed xs server_id kind subject_id (ground arith),
)

owe-Numbered :
    (kind subject_id : String) (db : Db) (peer : Peer)
    → Numbered db
    → Numbered (owe kind subject_id db peer)
unfolding owe
owe-Numbered kind subject_id db peer n = elim (Option-cases peer.revoked_at) [
  | inl e ↦ rw e (elim (Bool-cases (is_owed db.peer_event_queue peer.server_id kind subject_id)) [
    | inl t ↦ rw t n
    | inr f ↦ rw f (
        append-Numbered db _ n refl (not_owed db.peer_event_queue peer.server_id kind subject_id f))
  ])
  | inr (at, e) ↦ rw e n
]

owe_all-Numbered :
    (kind subject_id : String) (peers : List Peer) (db : Db)
    → Numbered db
    → Numbered (owe_all kind subject_id db peers)
unfolding owe_all
owe_all-Numbered kind subject_id [] db n = n
owe_all-Numbered kind subject_id (peer ∷ peers) db n =
    owe_all-Numbered kind subject_id peers (owe kind subject_id db peer)
      (owe-Numbered kind subject_id db peer n)

pub enqueue_peer_event-Numbered :
    (db : Db) (kind subject_id : String)
    → Numbered db
    → Numbered (enqueue_peer_event db kind subject_id)
unfolding enqueue_peer_event
enqueue_peer_event-Numbered db kind subject_id n =
    owe_all-Numbered kind subject_id db.server_mesh db n

pub enqueue_published_removal-Numbered :
    (db : Db) (kind reed_id : String)
    → Numbered db
    → Numbered (enqueue_published_removal db kind reed_id)
unfolding enqueue_published_removal
enqueue_published_removal-Numbered db kind reed_id n =
    if-both Numbered (published db reed_id) (enqueue_peer_event-Numbered db kind reed_id n) n
