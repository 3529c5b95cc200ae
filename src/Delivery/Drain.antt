-- ===== src/Delivery/Drain.antt =====
-- drainPeerEventsWith of src/backend/federation_delivery.go against a peer's queue seen as a list.
use syrinx.Common.{
  ℕ, zero, suc, ◌<◌, String, Bool, true, false, not, ◌==◌, Option, none, some, List, [], ◌∷◌,
  length, nat_eq, Bool-cases, inl, inr, ◌≡◌, ◌⊎◌, ◌≢◌, refl, sym, ap, ◌∙◌, arith,
}
use syrinx.Store.{PeerEvent, Db}
use syrinx.Delivery.{
  Turn, Sender, Reply, suspend_if, owed, first, peer_up, claimable, next_peer_event,
  delete_peer_event, claim_peer_events, set_peer_claim, refresh_peer_events_claim,
  release_peer_events, base_url_of, turn, drain_loop,
}
use syrinx.Delivery.Queue.{DistinctIds, owed-delete, owed-delete_other, select-DistinctIds}
use syrinx.Delivery.Claim.{
  peer_up-set_claim, base_url_of-set_claim, update-set_claim, suspended-set_claim, claimable-within,
}

module _ {W Body : Type 0} (sender_for : String → Option (Sender W Body))
    (call : W → String → String → String → Body → Reply × W) (now : W → ℕ) where
  -- A peer's queue as a list: its events take their turns in order until one stops the drain. What
  -- stays is what comes from that event on, with whether the peer answered it in lockdown. What an
  -- event reads of the tables is as the turns before it left them.
  unfoldable pub deliver : String → String → Db → W → List PeerEvent → List PeerEvent × (Bool × W)
  unfolding delete_peer_event refresh_peer_events_claim
  deliver peer base_url db w [] = ([], (false, w))
  deliver peer base_url db w (ev ∷ evs) = elim (turn sender_for call now peer base_url db ev w) [
    | Turn.stopped lockdown w' ↦ (ev ∷ evs, (lockdown, w'))
    | Turn.dropped w' ↦ deliver peer base_url (delete_peer_event db ev.id) w' evs
    | Turn.answered w' hook ↦
        let settled = hook (delete_peer_event db ev.id) w' in
        deliver peer base_url
          (refresh_peer_events_claim (delete_peer_event db ev.id) peer (now settled)) settled evs
  ]

  -- What a drain of `peer` that took its queue from `db` to `db'` did, with the world it ended in.
  pub record Delivered (peer : String) (db : Db) (w : W) (db' : Db) (w' : W) : Type 0 where
    pub lockdown : Bool
    pub left :
        ◌≡◌ {A = List PeerEvent × (Bool × W)}
          (owed peer db'.peer_event_queue, (lockdown, w'))
          (deliver peer (base_url_of db peer) db w (owed peer db.peer_event_queue))
    pub others :
        (other : String)
        → other ≢ peer
        → owed other db'.peer_event_queue ≡ owed other db.peer_event_queue
    pub mesh :
        (release_peer_events db' peer).server_mesh
        ≡ (release_peer_events (suspend_if lockdown db peer (now w')) peer).server_mesh

  abbrev pub Drains : ℕ → String → Db → W → Type 0
  Drains fuel peer db w =
      (db' : Db) × (w' : W) × (drain_loop sender_for call now fuel peer db w ≡ some (db', w'))
      × Delivered peer db w db' w'

  nothing_next :
      (db : Db) (peer : String)
      → owed peer db.peer_event_queue ≡ []
      → next_peer_event db peer ≡ none
  unfolding next_peer_event first
  nothing_next db peer e = elim (Bool-cases (peer_up db peer)) [
    | inl t ↦ rw (t, e) refl
    | inr f ↦ rw f refl
  ]

  some_next :
      (db : Db) (peer : String) {ev : PeerEvent} {evs : List PeerEvent}
      → peer_up db peer ≡ true
      → owed peer db.peer_event_queue ≡ ev ∷ evs
      → next_peer_event db peer ≡ some ev
  unfolding next_peer_event first
  some_next db peer up e = rw (up, e) refl

  deliver_nothing :
      (peer base_url : String) (db : Db) (w : W) (evs : List PeerEvent)
      → evs ≡ []
      → ◌≡◌ {A = List PeerEvent × (Bool × W)} (evs, (false, w)) (deliver peer base_url db w evs)
  unfolding deliver
  deliver_nothing peer base_url db w [] e = refl
  deliver_nothing peer base_url db w (ev ∷ evs) e = ground arith

  nothing_owed :
      (fuel : ℕ) (peer : String) (db : Db) (w : W)
      → owed peer db.peer_event_queue ≡ []
      → Drains (suc fuel) peer db w
  unfolding drain_loop suspend_if
  nothing_owed fuel peer db w e = (
    db,
    w,
    rw (drain_loop, nothing_next db peer e) refl,
    record {
      lockdown = false;
      left = deliver_nothing peer (base_url_of db peer) db w (owed peer db.peer_event_queue) e;
      others = λ other n. refl;
      mesh = refl;
    },
  )

  -- The rest of a drain after a turn that deleted the first event, whatever it did to the claim.
  go_on :
      (peer : String) (db : Db) (ev : PeerEvent) (evs : List PeerEvent) (w w1 : W) (db1 : Db)
      → DistinctIds db.peer_event_queue
      → owed peer db.peer_event_queue ≡ ev ∷ evs
      → base_url_of db1 peer ≡ base_url_of db peer
      → db1.peer_event_queue ≡ (delete_peer_event db ev.id).peer_event_queue
      → ((l : Bool) (at : ℕ)
          → (release_peer_events (suspend_if l db1 peer at) peer).server_mesh
            ≡ (release_peer_events (suspend_if l db peer at) peer).server_mesh)
      → deliver peer (base_url_of db peer) db w (ev ∷ evs)
        ≡ deliver peer (base_url_of db peer) db1 w1 evs
      → (db' : Db) (w' : W) → Delivered peer db1 w1 db' w'
      → Delivered peer db w db' w'
  unfolding delete_peer_event
  go_on peer db ev evs w w1 db1 d e base queue mesh step db' w' next = record {
    lockdown = next.lockdown;
    left =
        next.left
        ∙ ap (λ u. deliver peer u db1 w1 (owed peer db1.peer_event_queue)) base
        ∙ ap (deliver peer (base_url_of db peer) db1 w1)
            (ap (owed peer) queue ∙ owed-delete peer db.peer_event_queue d e)
        ∙ sym step
        ∙ sym (ap (deliver peer (base_url_of db peer) db w) e);
    others = λ other n.
        next.others other n
        ∙ ap (owed other) queue
        ∙ owed-delete_other peer other db.peer_event_queue d e n;
    mesh = next.mesh ∙ mesh next.lockdown (now w');
  }

  stops :
      (peer : String) (db : Db) (ev : PeerEvent) (evs : List PeerEvent) (w w' : W) (l : Bool)
      → owed peer db.peer_event_queue ≡ ev ∷ evs
      → turn sender_for call now peer (base_url_of db peer) db ev w ≡ Turn.stopped l w'
      → Delivered peer db w (suspend_if l db peer (now w')) w'
  unfolding deliver suspend_if
  stops peer db ev evs w w' l e t = record {
    lockdown = l;
    left = rw (deliver, e, t) refl;
    others = λ other n. refl;
    mesh = refl;
  }

  pub Turn-cases :
      (t : Turn W)
      → ((l : Bool) × (w : W) × (t ≡ Turn.stopped l w))
        ⊎ ((w : W) × (t ≡ Turn.dropped w))
        ⊎ ((w : W) × (hook : Db → W → W) × (t ≡ Turn.answered w hook))
  Turn-cases (Turn.stopped l w) = inl (l, w, refl)
  Turn-cases (Turn.dropped w) = inr (inl (w, refl))
  Turn-cases (Turn.answered w hook) = inr (inr (w, hook, refl))

  pub loop_delivers :
      (evs : List PeerEvent) (fuel : ℕ) (peer : String) (db : Db) (w : W)
      → owed peer db.peer_event_queue ≡ evs
      → peer_up db peer ≡ true
      → DistinctIds db.peer_event_queue
      → length evs < fuel
      → Drains fuel peer db w
  unfolding drain_loop delete_peer_event refresh_peer_events_claim release_peer_events
      set_peer_claim suspend_if deliver
  loop_delivers evs zero peer db w e up d more = absurd (omega (arith, more))
  loop_delivers [] (suc fuel) peer db w e up d more = nothing_owed fuel peer db w e
  loop_delivers (ev ∷ evs) (suc fuel) peer db w e up d more =
      let found = some_next db peer up e in
      let kept = select-DistinctIds (λ e. not (nat_eq e.id ev.id)) db.peer_event_queue d in
      let rest = owed-delete peer db.peer_event_queue d e in
      let fewer : length evs < fuel = omega (arith, more) in
      elim (Turn-cases (turn sender_for call now peer (base_url_of db peer) db ev w)) [
        | inl (l, w1, t) ↦ (
          suspend_if l db peer (now w1),
          w1,
          rw (drain_loop, found, t) refl,
          stops peer db ev evs w w1 l e t,
        )
        | inr (inl (w1, t)) ↦
            let db1 = delete_peer_event db ev.id in
            let (db', w', ran, next) = loop_delivers evs fuel peer db1 w1 rest up kept fewer in
            (
              db',
              w',
              rw (drain_loop, found, t) ran,
              go_on peer db ev evs w w1 db1 d e refl refl (λ l at. refl) (rw (deliver, t) refl) db'
                  w' next,
            )
        | inr (inr (w1, hook, t)) ↦
            let w2 = hook (delete_peer_event db ev.id) w1 in
            let db1 = refresh_peer_events_claim (delete_peer_event db ev.id) peer (now w2) in
            let (db', w', ran, next) =
              loop_delivers evs fuel peer db1 w2 rest
                (peer_up-set_claim (delete_peer_event db ev.id) peer (λ m. m.server_id == peer)
                    (some (now w2))
                  ∙ up)
                kept fewer in
            (
              db',
              w',
              rw (drain_loop, found, t) ran,
              go_on peer db ev evs w w2 db1 d e
                  (base_url_of-set_claim (delete_peer_event db ev.id) peer
                    (λ m. m.server_id == peer) (some (now w2)))
                  refl
                  (λ l at.
                    suspended-set_claim l at (λ m. m.server_id == peer) peer (some (now w2))
                      db.server_mesh (λ m s. s))
                  (rw (deliver, t) refl) db' w' next,
            )
      ]

  -- The claim and its release around the loop.
  pub released :
      (peer : String) (db : Db) (at : ℕ) (db' : Db) (w w' : W)
      → Delivered peer (claim_peer_events db peer at).1 w db' w'
      → (done : Delivered peer (claim_peer_events db peer at).1 w (release_peer_events db' peer) w')
        × ((release_peer_events db' peer).server_mesh
            ≡ (release_peer_events (suspend_if done.lockdown db peer (now w')) peer).server_mesh)
  unfolding release_peer_events set_peer_claim claim_peer_events suspend_if
  released peer db at db' w w' next = (
    record {
      lockdown = next.lockdown;
      left = next.left;
      others = next.others;
      mesh =
          update-set_claim (λ m. m.server_id == peer) peer none db'.server_mesh (λ m s. s)
          ∙ next.mesh;
    },
    next.mesh
        ∙ suspended-set_claim next.lockdown (now w') (claimable peer at) peer (some at)
            db.server_mesh (claimable-within peer at),
  )
