-- ===== src/Store/PeerEvents.antt =====
-- src/backend/peer_event_queue.go: what each peer is owed.
use syrinx.Common.{
  ℕ, update, is_none, not, ◌+◌, String, Bool, true, false, ◌&&◌, ◌==◌, if◌then◌else◌, Option, none,
  some, List, [], ◌∷◌, ◌++◌, any,
}
use syrinx.Store.{Peer, PeerEvent, Db}

abbrev pub key_revocation : String
key_revocation = "key_revocation"

abbrev pub account_removal : String
account_removal = "account_removal"

abbrev pub server_key : String
server_key = "server_key"

unfoldable pub no_object : Option String → Bool
no_object none = true
no_object (some object) = false

unfoldable pub is_owed : List PeerEvent → String → String → String → Bool
unfolding no_object
is_owed queue server_id kind subject_id =
    any
      (λ e.
        e.server_id == server_id
        && e.kind == kind
        && e.subject_id == subject_id
        && no_object e.object_id)
      queue

-- One row of the INSERT … SELECT: a revoked peer is left out, a row that is there stays.
unfoldable pub owe : String → String → Db → Peer → Db
unfolding is_owed
owe kind subject_id db peer = elim peer.revoked_at [
  | some at ↦ db
  | none ↦ if is_owed db.peer_event_queue peer.server_id kind subject_id then db else record db {
    peer_event_queue =
        db.peer_event_queue
        ++ record {
          id = db.next_event_id;
          server_id = peer.server_id;
          kind = kind;
          subject_id = subject_id;
          object_id = none;
        }
          ∷ [];
    next_event_id = db.next_event_id + 1;
  }
]

unfoldable pub owe_all : String → String → Db → List Peer → Db
unfolding owe
owe_all kind subject_id db [] = db
owe_all kind subject_id db (peer ∷ peers) =
    owe_all kind subject_id (owe kind subject_id db peer) peers

-- enqueuePeerEventTx
unfoldable pub enqueue_peer_event : Db → String → String → Db
unfolding owe_all
enqueue_peer_event db kind subject_id = owe_all kind subject_id db db.server_mesh

-- A local reed that was published
unfoldable pub published : Db → String → Bool
published db reed_id = any (λ r. r.id == reed_id && not (is_none r.published_at)) db.reeds

-- enqueuePublishedRemovalTx
unfoldable pub enqueue_published_removal : Db → String → String → Db
unfolding published enqueue_peer_event
enqueue_published_removal db kind reed_id =
    if published db reed_id then enqueue_peer_event db kind reed_id else db

unfoldable pub same_pair : String → String → String → String → PeerEvent → Bool
same_pair server_id kind subject_id object_id e = elim e.object_id [
  | none ↦ false
  | some object ↦
      e.server_id == server_id
      && e.kind == kind
      && e.subject_id == subject_id
      && object == object_id
]

-- ON CONFLICT DO UPDATE SET id = nextval(…)
unfoldable pub renumber : ℕ → PeerEvent → PeerEvent
renumber id e = record e { id = id }

-- enqueuePeerEventForTx
unfoldable pub enqueue_peer_event_for : Db → String → String → String → String → Db
unfolding same_pair renumber
enqueue_peer_event_for db server_id kind subject_id object_id =
    let queue = db.peer_event_queue in
    let pair = same_pair server_id kind subject_id object_id in
    if any (λ m. m.server_id == server_id && is_none m.revoked_at) db.server_mesh
    then record db {
      peer_event_queue =
          if any pair queue
          then update pair (renumber db.next_event_id) queue
          else queue
            ++ record {
              id = db.next_event_id;
              server_id = server_id;
              kind = kind;
              subject_id = subject_id;
              object_id = some object_id;
            }
              ∷ [];
      next_event_id = db.next_event_id + 1;
    }
    else db
