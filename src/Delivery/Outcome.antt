-- ===== src/Delivery/Outcome.antt =====
-- What a whole drain of drainPeerEventsWith (src/backend/federation_delivery.go) leaves of the
-- peer's queue.
use syrinx.Common.{
  ℕ, ◌<◌, String, true, Option, some, List, [], ◌∷◌, ◌++◌, length, All, Bool-cases, inl, inr, ◌≡◌,
  refl, sym, ap, subst, ◌∙◌, arith,
}
use syrinx.Store.{PeerEvent, Db}
use syrinx.Delivery.{
  Turn, Sender, Reply, suspend_if, delete_peer_event, refresh_peer_events_claim, owed, claimable,
  claim_peer_events, release_peer_events, base_url_of, turn, release, drain_peer_events_with,
}
use syrinx.Delivery.Queue.{DistinctIds}
use syrinx.Delivery.Claim.{peer_up-set_claim, base_url_of-set_claim, claimed-peer_up}
use syrinx.Delivery.Drain.{deliver, Delivered, Turn-cases, loop_delivers, released}

-- A turn that does not stop the drain
abbrev pub Settles : {W : Type 0} → Turn W → Type 0
Settles (Turn.stopped lockdown w) = ⊥
Settles (Turn.dropped w) = Unit
Settles (Turn.answered w hook) = Unit

module _ {W Body : Type 0} (sender_for : String → Option (Sender W Body))
    (call : W → String → String → String → Body → Reply × W) (now : W → ℕ) where
  -- A drain that claims its queue, where the events' ids differ, the fuel is more than the events
  -- owed, and calls and hooks write neither the queue nor, but for the answer's own lockdown,
  -- server_mesh, ends. It does to the peer's events, read by id, what `deliver` does to a list:
  -- each takes its turn in order until one stops the drain, and that one and those behind it stay.
  -- Every other peer's events stay. In server_mesh the peer's claim is released, and the peer is
  -- marked down where the turn that stopped the drain was answered in lockdown; nothing else
  -- changes there.
  pub drain_peer_events_with-deliver :
      (fuel : ℕ) (peer : String) (db : Db) (w : W)
      → DistinctIds db.peer_event_queue
      → length (owed peer db.peer_event_queue) < fuel
      → (claim_peer_events db peer (now w)).0 ≡ true
      → (db' : Db) × (w' : W) × (drain_peer_events_with sender_for call now fuel peer db w
          ≡ some (db', w'))
        × ((done : Delivered sender_for call now peer
              (claim_peer_events db peer (now w)).1
              w
              db'
              w')
            × (db'.server_mesh
                ≡ (release_peer_events
                    (suspend_if done.lockdown db peer (now w'))
                    peer).server_mesh))
  unfolding drain_peer_events_with release claim_peer_events
  drain_peer_events_with-deliver fuel peer db w d enough claimed =
      let up =
        peer_up-set_claim db peer (claimable peer (now w)) (some (now w))
        ∙ claimed-peer_up db peer (now w) claimed in
      let (db', w', ran, next) =
        loop_delivers sender_for call now (owed peer db.peer_event_queue) fuel peer
          (claim_peer_events db peer (now w)).1 w refl up d enough in
      (
        release_peer_events db' peer,
        w',
        rw (claimed, ran) refl,
        released sender_for call now peer db (now w) db' w w' next,
      )

  -- Where the events' ids differ, a drain ends with fuel for one turn more than the events owed,
  -- claimed or not.
  pub drain_peer_events_with_ends :
      (fuel : ℕ) (peer : String) (db : Db) (w : W)
      → DistinctIds db.peer_event_queue
      → length (owed peer db.peer_event_queue) < fuel
      → (db' : Db) × (w' : W) × (drain_peer_events_with sender_for call now fuel peer db w
          ≡ some (db', w'))
  unfolding drain_peer_events_with
  drain_peer_events_with_ends fuel peer db w d enough =
      elim (Bool-cases (claim_peer_events db peer (now w)).0) [
        | inl t ↦
            let (db', w', ran, (done, mesh)) =
              drain_peer_events_with-deliver fuel peer db w d enough t in
            (db', w', ran)
        | inr f ↦ (db, w, rw f refl)
      ]

  -- The events that leave are the first ones.
  deliver_suffix :
      (peer base_url : String) (db : Db) (w : W) (evs : List PeerEvent)
      → (sent : List PeerEvent) × (evs
          ≡ sent ++ (deliver sender_for call now peer base_url db w evs).0)
  unfolding deliver
  deliver_suffix peer base_url db w [] = ([], refl)
  deliver_suffix peer base_url db w (ev ∷ evs) =
      elim (Turn-cases sender_for call now (turn sender_for call now peer base_url db ev w)) [
        | inl (l, w1, t) ↦ ([], rw (deliver, t) refl)
        | inr (inl (w1, t)) ↦
            let (sent, e) = deliver_suffix peer base_url (delete_peer_event db ev.id) w1 evs in
            (ev ∷ sent, rw (deliver, t) (ap (λ r. ev ∷ r) e))
        | inr (inr (w1, hook, t)) ↦
            let (sent, e) =
              deliver_suffix peer base_url
                (refresh_peer_events_claim (delete_peer_event db ev.id) peer
                  (now (hook (delete_peer_event db ev.id) w1)))
                (hook (delete_peer_event db ev.id) w1) evs in
            (ev ∷ sent, rw (deliver, t) (ap (λ r. ev ∷ r) e))
      ]

  deliver_all :
      (peer base_url : String) (db : Db) (w : W) (evs : List PeerEvent)
      → All (λ ev. (d : Db) (v : W) → Settles (turn sender_for call now peer base_url d ev v)) evs
      → (deliver sender_for call now peer base_url db w evs).0 ≡ []
  unfolding deliver
  deliver_all peer base_url db w [] h = refl
  deliver_all peer base_url db w (ev ∷ evs) h =
      elim (Turn-cases sender_for call now (turn sender_for call now peer base_url db ev w)) [
        | inl (l, w1, t) ↦ absurd (subst Settles t (h.0 db w))
        | inr (inl (w1, t)) ↦
            rw (deliver, t) (deliver_all peer base_url (delete_peer_event db ev.id) w1 evs h.1)
        | inr (inr (w1, hook, t)) ↦
            rw (deliver, t)
              (deliver_all peer base_url
                (refresh_peer_events_claim (delete_peer_event db ev.id) peer
                  (now (hook (delete_peer_event db ev.id) w1)))
                (hook (delete_peer_event db ev.id) w1) evs h.1)
      ]

  some_pair : {a b : Db} {v w : W} → ◌≡◌ {A = Option (Db × W)} (some (a, v)) (some (b, w)) → a ≡ b
  some_pair e = ground arith

  -- The drain leaves the end of the queue, and nothing of it when every turn settles.
  pub drain_peer_events_with_order :
      (fuel : ℕ) (peer : String) (db db' : Db) (w w' : W)
      → DistinctIds db.peer_event_queue
      → length (owed peer db.peer_event_queue) < fuel
      → (claim_peer_events db peer (now w)).0 ≡ true
      → drain_peer_events_with sender_for call now fuel peer db w ≡ some (db', w')
      → (sent : List PeerEvent) × (owed peer db.peer_event_queue
          ≡ sent ++ owed peer db'.peer_event_queue)
  unfolding claim_peer_events
  drain_peer_events_with_order fuel peer db db' w w' d enough claimed ran =
      let claimed_db : Db = (claim_peer_events db peer (now w)).1 in
      let (db1, w1, ran1, (done, mesh)) =
        drain_peer_events_with-deliver fuel peer db w d enough claimed in
      let same : db1 ≡ db' = some_pair (sym ran1 ∙ ran) in
      let (sent, e) =
        deliver_suffix peer (base_url_of claimed_db peer) claimed_db w
          (owed peer db.peer_event_queue) in
      (
        sent,
        e
            ∙ ap (λ l. sent ++ l)
                (sym (ap (λ p. p.0) done.left)
                  ∙ ap (λ (x : Db). owed peer x.peer_event_queue) same),
      )

  -- A drain that claims its queue, where the events' ids differ, the fuel is more than the events
  -- owed and no owed event's turn ever stops it, ends and leaves the peer nothing owed.
  pub drain_peer_events_with_empties :
      (fuel : ℕ) (peer : String) (db : Db) (w : W)
      → DistinctIds db.peer_event_queue
      → length (owed peer db.peer_event_queue) < fuel
      → (claim_peer_events db peer (now w)).0 ≡ true
      → All
          (λ ev.
            (d : Db) (v : W) → Settles (turn sender_for call now peer (base_url_of db peer) d ev v))
          (owed peer db.peer_event_queue)
      → (db' : Db) × (w' : W) × (drain_peer_events_with sender_for call now fuel peer db w
          ≡ some (db', w'))
        × (owed peer db'.peer_event_queue ≡ [])
  unfolding claim_peer_events
  drain_peer_events_with_empties fuel peer db w d enough claimed settles =
      let claimed_db : Db = (claim_peer_events db peer (now w)).1 in
      let (db', w', ran, (done, mesh)) =
        drain_peer_events_with-deliver fuel peer db w d enough claimed in
      (
        db',
        w',
        ran,
        ap (λ p. p.0) done.left
            ∙ deliver_all peer (base_url_of claimed_db peer) claimed_db w
                (owed peer db.peer_event_queue)
                (subst
                  (λ u.
                    All
                      (λ (ev : PeerEvent).
                        (d : Db) (v : W) → Settles (turn sender_for call now peer u d ev v))
                      (owed peer db.peer_event_queue))
                  (sym (base_url_of-set_claim db peer (claimable peer (now w)) (some (now w))))
                  settles),
      )
