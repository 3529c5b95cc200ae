-- ===== src/Delivery/Enqueue.antt =====
-- The numbering of peer_event_queue under its writers (src/backend/peer_event_queue.go) and under
-- DeletePeerEvent.
use syrinx.Common.{
  ℕ, ◌+◌, ◌<◌, String, Bool, true, false, ◌&&◌, ◌==◌, Option, some, List, [], ◌∷◌, any, select,
  update, is_none, All, All-update, All-select, All-map, Bool-cases, inl, inr, ◌≡◌, ◌≢◌, refl, sym,
  ap, ◌∙◌, arith, eq_iff, and-true, Option-cases, ◌↔◌,
}
use syrinx.Store.{PeerEvent, Db}
use syrinx.Store.PeerEvents.{
  same_pair, renumber, enqueue_peer_event, enqueue_published_removal, enqueue_peer_event_for,
}
use syrinx.Delivery.{delete_peer_event}
use syrinx.Delivery.Queue.{DistinctIds, select-DistinctIds}
use syrinx.Delivery.Numbered.{
  event_key, DistinctKeys, Numbered, same_text, append-Numbered, enqueue_peer_event-Numbered,
  enqueue_published_removal-Numbered,
}

key_eq :
    (e : PeerEvent) (server_id kind subject_id : String) (object : Option String)
    → e.server_id ≡ server_id
    → e.kind ≡ kind
    → e.subject_id ≡ subject_id
    → e.object_id ≡ object
    → event_key e ≡ (server_id, kind, subject_id, object)
key_eq e server_id kind subject_id object a b c d = λ i. (a i, b i, c i, d i)

some_text : {s t : String} → some s ≡ some t → s ≡ t
some_text e = ground arith

-- same_pair tests for one key.
same_pair_iff :
    (server_id kind subject_id object_id : String) (e : PeerEvent)
    → (same_pair server_id kind subject_id object_id e ≡ true)
      ↔ (event_key e ≡ (server_id, kind, subject_id, some object_id))
unfolding same_pair
same_pair_iff server_id kind subject_id object_id e = elim (Option-cases e.object_id) [
  | inl o ↦ (λ h. ground arith, λ k. ground arith)
  | inr (object, o) ↦ (
    λ h.
        let opened : (e.server_id == server_id
              && e.kind == kind
              && e.subject_id == subject_id
              && object == object_id)
            ≡ true =
          rw (same_pair, o) at h in
        let (h2, d) =
          and-true (e.server_id == server_id && e.kind == kind && e.subject_id == subject_id)
            (object == object_id) opened in
        let (h1, c) =
          and-true (e.server_id == server_id && e.kind == kind) (e.subject_id == subject_id) h2 in
        let (a, b) = and-true (e.server_id == server_id) (e.kind == kind) h1 in
        key_eq e server_id kind subject_id (some object_id) ((eq_iff _ _).0 a) ((eq_iff _ _).0 b)
          ((eq_iff _ _).0 c) (o ∙ ap some ((eq_iff object object_id).0 d)),
    λ k.
        let same : object ≡ object_id = some_text (sym o ∙ ap (λ t. t.3) k) in
        rw
          (
            same_pair,
            o,
            same_text (ap (λ t. t.0) k),
            same_text (ap (λ t. t.1) k),
            same_text (ap (λ t. t.2) k),
            same_text same,
          )
          refl,
  )
]

no_pair :
    (queue : List PeerEvent) (server_id kind subject_id object_id : String)
    → any (same_pair server_id kind subject_id object_id) queue ≡ false
    → All (λ x. event_key x ≢ (server_id, kind, subject_id, some object_id)) queue
no_pair [] server_id kind subject_id object_id h = tt
no_pair (x ∷ xs) server_id kind subject_id object_id h = (
  λ k. let t = (same_pair_iff server_id kind subject_id object_id x).1 k in ground arith,
  no_pair xs server_id kind subject_id object_id (ground arith),
)

-- Renumbering keeps the keys, so that a row of the key is the only one renumbered.
update_absent :
    (p : PeerEvent → Bool) (f : PeerEvent → PeerEvent) (xs : List PeerEvent)
    → All (λ x. p x ≡ false) xs
    → update p f xs ≡ xs
update_absent p f [] h = refl
update_absent p f (x ∷ xs) h = rw (h.0) (ap (λ r. x ∷ r) (update_absent p f xs h.1))

module _ (server_id kind subject_id object_id : String) (id : ℕ) where
  abbrev pair : PeerEvent → Bool
  pair = same_pair server_id kind subject_id object_id

  others_differ :
      (x : PeerEvent) (xs : List PeerEvent)
      → pair x ≡ true
      → All (λ y. event_key x ≢ event_key y) xs
      → All (λ y. pair y ≡ false) xs
  others_differ x xs t h =
      All-map _ _ xs
        (λ y differ. elim (Bool-cases (pair y)) [
          | inl s ↦ absurd (
              differ (
                (same_pair_iff server_id kind subject_id object_id x).0 t
                ∙ sym ((same_pair_iff server_id kind subject_id object_id y).0 s)))
          | inr f ↦ f
        ])
        h

  All-renumber :
      (P : PeerEvent → Type 0) (xs : List PeerEvent)
      → ((x : PeerEvent) → P x → P (renumber id x))
      → All P xs
      → All P (update pair (renumber id) xs)
  All-renumber P xs keep h = All-update P pair (renumber id) xs (λ x t. keep x) h

  renumber-DistinctKeys :
      (xs : List PeerEvent) → DistinctKeys xs → DistinctKeys (update pair (renumber id) xs)
  unfolding renumber
  renumber-DistinctKeys [] d = tt
  renumber-DistinctKeys (x ∷ xs) d =
      let rest = renumber-DistinctKeys xs d.1 in
      let apart = All-renumber (λ y. event_key x ≢ event_key y) xs (λ y p. p) d.0 in
      elim (Bool-cases (pair x)) [ inl t ↦ rw t (apart, rest) | inr f ↦ rw f (apart, rest) ]

  renumber-DistinctIds :
      (xs : List PeerEvent)
      → DistinctIds xs
      → DistinctKeys xs
      → All (λ x. x.id < id) xs
      → DistinctIds (update pair (renumber id) xs)
  unfolding renumber
  renumber-DistinctIds [] d k b = tt
  renumber-DistinctIds (x ∷ xs) d k b = elim (Bool-cases (pair x)) [
    | inl t ↦
        let same : update pair (renumber id) xs ≡ xs =
          update_absent pair (renumber id) xs (others_differ x xs t k.0) in
        rw (t, same) (All-map _ _ xs (λ y lt. λ e. omega (arith, lt, e)) b.1, d.1)
    | inr f ↦ rw f (
      All-update (λ y. x.id ≢ y.id) pair (renumber id) xs (λ y t p e. omega (arith, b.0, e)) d.0,
      renumber-DistinctIds xs d.1 k.1 b.1,
    )
  ]

enqueue_peer_event_for-Numbered :
    (db : Db) (server_id kind subject_id object_id : String)
    → Numbered db
    → Numbered (enqueue_peer_event_for db server_id kind subject_id object_id)
unfolding enqueue_peer_event_for renumber
enqueue_peer_event_for-Numbered db server_id kind subject_id object_id n =
    let next = db.next_event_id in
    let queue = db.peer_event_queue in
    let pair = same_pair server_id kind subject_id object_id in
    elim (Bool-cases (any (λ m. m.server_id == server_id && is_none m.revoked_at) db.server_mesh)) [
      | inr u ↦ rw u n
      | inl k ↦ elim (Bool-cases (any pair queue)) [
        | inl t ↦
            rw (k, t)
              (record {
                distinct =
                    renumber-DistinctIds server_id kind subject_id object_id next queue n.distinct
                      n.unique n.below;
                below =
                    All-update (λ e. e.id < next + 1) pair (renumber next) queue
                      (λ e s p. omega arith) (All-map _ _ queue (λ x p. omega (arith, p)) n.below);
                unique =
                    renumber-DistinctKeys server_id kind subject_id object_id next queue n.unique;
              })
        | inr f ↦
            rw (k, f)
              (append-Numbered db _ n refl (no_pair queue server_id kind subject_id object_id f))
      ]
    ]

select-DistinctKeys :
    (p : PeerEvent → Bool) (xs : List PeerEvent) → DistinctKeys xs → DistinctKeys (select p xs)
select-DistinctKeys p [] d = tt
select-DistinctKeys p (x ∷ xs) d = elim (Bool-cases (p x)) [
  | inl t ↦
      rw t (All-select (λ y. event_key x ≢ event_key y) p xs d.0, select-DistinctKeys p xs d.1)
  | inr f ↦ rw f (select-DistinctKeys p xs d.1)
]

delete_peer_event-Numbered : (db : Db) (id : ℕ) → Numbered db → Numbered (delete_peer_event db id)
unfolding delete_peer_event
delete_peer_event-Numbered db id n = record {
  distinct = select-DistinctIds _ db.peer_event_queue n.distinct;
  below = All-select _ _ db.peer_event_queue n.below;
  unique = select-DistinctKeys _ db.peer_event_queue n.unique;
}

-- From a queue whose events have ids that differ and are under the next one, and no two of one
-- server, kind, subject and object, each of the three ways to enqueue and the deletion of an event
-- lead to such a queue.
pub writers-Numbered :
    (db : Db) (server_id kind subject_id object_id : String) (id : ℕ)
    → Numbered db
    → Numbered (enqueue_peer_event db kind subject_id)
      × Numbered (enqueue_published_removal db kind subject_id)
      × Numbered (enqueue_peer_event_for db server_id kind subject_id object_id)
      × Numbered (delete_peer_event db id)
writers-Numbered db server_id kind subject_id object_id id n = (
  enqueue_peer_event-Numbered db kind subject_id n,
  enqueue_published_removal-Numbered db kind subject_id n,
  enqueue_peer_event_for-Numbered db server_id kind subject_id object_id n,
  delete_peer_event-Numbered db id n,
)
