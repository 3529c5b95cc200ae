-- ===== src/Delivery/Claim.antt =====
-- A drain's claim of a peer's queue, in server_mesh (src/backend/services.go).
use syrinx.Common.{
  ℕ, ◌+◌, ◌≤◌, String, Bool, true, false, ◌&&◌, ◌||◌, ◌==◌, if◌then◌else◌, Option, none, some, List,
  [], ◌∷◌, any, find, update, All, Distinct, subst, eq_iff, Bool-cases, and-true, inl, inr, ◌≡◌,
  refl, sym, ap, ◌∙◌, arith,
}
use syrinx.Store.{Peer, Db}
use syrinx.Delivery.{
  up, peer_up, unclaimed, claimable, set_claim, set_down, set_peer_claim, claim_peer_events,
  refresh_peer_events_claim, release_peer_events, base_url_of,
}

any-update :
    (p q : Peer → Bool) (f : Peer → Peer) (ms : List Peer)
    → ((m : Peer) → p (f m) ≡ p m)
    → any p (update q f ms) ≡ any p ms
any-update p q f [] keep = refl
any-update p q f (m ∷ ms) keep =
    let rest = any-update p q f ms keep in
    elim (Bool-cases (q m)) [ inl t ↦ rw (t, keep m, rest) refl | inr e ↦ rw (e, rest) refl ]

-- A claim's update leaves what the drain reads of the peer.
pub peer_up-set_claim :
    (db : Db) (peer : String) (q : Peer → Bool) (at : Option ℕ)
    → peer_up (record db { server_mesh = update q (set_claim at) db.server_mesh }) peer
      ≡ peer_up db peer
unfolding peer_up set_claim up
peer_up-set_claim db peer q at =
    any-update (λ m. m.server_id == peer && up m) q (set_claim at) db.server_mesh (λ m. refl)

base_url : Option Peer → String
base_url none = ""
base_url (some m) = m.base_url

base_url-update :
    (q : Peer → Bool) (peer : String) (at : Option ℕ) (ms : List Peer)
    → base_url (find (λ m. m.server_id == peer) (update q (set_claim at) ms))
      ≡ base_url (find (λ m. m.server_id == peer) ms)
unfolding set_claim base_url
base_url-update q peer at [] = refl
base_url-update q peer at (m ∷ ms) =
    let rest = base_url-update q peer at ms in
    elim (Bool-cases (q m)) [
      | inl t ↦ elim (Bool-cases (m.server_id == peer)) [
        | inl s ↦ rw (t, s) refl
        | inr s ↦ rw (t, s) rest
      ]
      | inr e ↦ elim (Bool-cases (m.server_id == peer)) [
        | inl s ↦ rw (e, s) refl
        | inr s ↦ rw (e, s) rest
      ]
    ]

base_url_of-eq :
    (db : Db) (peer : String)
    → base_url_of db peer ≡ base_url (find (λ m. m.server_id == peer) db.server_mesh)
unfolding base_url_of base_url
base_url_of-eq db peer = ground arith

pub base_url_of-set_claim :
    (db : Db) (peer : String) (q : Peer → Bool) (at : Option ℕ)
    → base_url_of (record db { server_mesh = update q (set_claim at) db.server_mesh }) peer
      ≡ base_url_of db peer
base_url_of-set_claim db peer q at =
    base_url_of-eq _ peer ∙ base_url-update q peer at db.server_mesh ∙ sym (base_url_of-eq db peer)

-- Releasing undoes any claim that an update of the peer's row made.
pub update-set_claim :
    (q : Peer → Bool) (peer : String) (at : Option ℕ) (ms : List Peer)
    → ((m : Peer) → q m ≡ true → (m.server_id == peer) ≡ true)
    → update (λ m. m.server_id == peer) (set_claim none) (update q (set_claim at) ms)
      ≡ update (λ m. m.server_id == peer) (set_claim none) ms
unfolding set_claim
update-set_claim q peer at [] within = refl
update-set_claim q peer at (m ∷ ms) within =
    let rest = update-set_claim q peer at ms within in
    elim (Bool-cases (q m)) [
      | inl t ↦ let s = within m t in rw (t, s) (ap (λ r. set_claim none m ∷ r) rest)
      | inr e ↦ rw e (ap (λ r. (if m.server_id == peer then set_claim none m else m) ∷ r) rest)
    ]

set_claim-set_down :
    (now : ℕ) (peer : String) (at : Option ℕ) (ms : List Peer)
    → update
        (λ m. m.server_id == peer)
        (set_claim at)
        (update (λ m. m.server_id == peer) (set_down now) ms)
      ≡ update
          (λ m. m.server_id == peer)
          (set_down now)
          (update (λ m. m.server_id == peer) (set_claim at) ms)
unfolding set_claim set_down
set_claim-set_down now peer at [] = refl
set_claim-set_down now peer at (m ∷ ms) =
    let rest = set_claim-set_down now peer at ms in
    elim (Bool-cases (m.server_id == peer)) [
      | inl s ↦ rw (s, s) (ap (λ r. set_claim at (set_down now m) ∷ r) rest)
      | inr s ↦ rw (s, s) (ap (λ r. m ∷ r) rest)
    ]

-- A release undoes it after a suspension too, which leaves the claim.
pub suspended-set_claim :
    (l : Bool) (now : ℕ) (q : Peer → Bool) (peer : String) (at : Option ℕ) (ms : List Peer)
    → ((m : Peer) → q m ≡ true → (m.server_id == peer) ≡ true)
    → update
        (λ m. m.server_id == peer)
        (set_claim none)
        (if l
          then update (λ m. m.server_id == peer) (set_down now) (update q (set_claim at) ms)
          else update q (set_claim at) ms)
      ≡ update
          (λ m. m.server_id == peer)
          (set_claim none)
          (if l then update (λ m. m.server_id == peer) (set_down now) ms else ms)
suspended-set_claim false now q peer at ms within = update-set_claim q peer at ms within
suspended-set_claim true now q peer at ms within =
    set_claim-set_down now peer none (update q (set_claim at) ms)
    ∙ ap (update (λ m. m.server_id == peer) (set_down now)) (update-set_claim q peer at ms within)
    ∙ sym (set_claim-set_down now peer none ms)

pub claimable-within :
    (peer : String) (now : ℕ) (m : Peer)
    → claimable peer now m ≡ true
    → (m.server_id == peer) ≡ true
unfolding claimable
claimable-within peer now m h = (and-true (m.server_id == peer) _ h).0

not_claimable :
    (peer : String) (now later : ℕ) (m : Peer)
    → later ≤ now + 60
    → claimable peer later (set_claim (some now) m) ≡ false
unfolding claimable set_claim up unclaimed
not_claimable peer now later m le = ground (arith, le)

not_theirs :
    (peer : String) (now : ℕ) (m : Peer)
    → (m.server_id == peer) ≡ false
    → claimable peer now m ≡ false
unfolding claimable
not_theirs peer now m h = rw h refl

any-claimable_absent :
    (peer : String) (now : ℕ) (ms : List Peer)
    → All (λ m. (m.server_id == peer) ≡ false) ms
    → any (claimable peer now) ms ≡ false
any-claimable_absent peer now [] h = refl
any-claimable_absent peer now (m ∷ ms) h =
    rw (not_theirs peer now m h.0) (any-claimable_absent peer now ms h.1)

true-false {ℓ} : {T : Type ℓ} → true ≡ false → T
true-false e = ground arith

released_claimable :
    (peer : String) (now at : ℕ) (m : Peer)
    → claimable peer now m ≡ true
    → claimable peer at (set_claim none m) ≡ true
unfolding claimable set_claim up unclaimed
released_claimable peer now at m h = ground arith

claimed_released :
    (peer : String) (now at : ℕ) (m : Peer)
    → claimable peer now m ≡ true
    → claimable peer at (set_claim none (set_claim (some now) m)) ≡ true
unfolding set_claim
claimed_released peer now at m h = released_claimable peer now at m h

claim_server :
    (at : Option ℕ) (m : Peer) (peer : String)
    → (m.server_id == peer) ≡ true
    → ((set_claim at m).server_id == peer) ≡ true
unfolding set_claim
claim_server at m peer h = h

or_true : (b : Bool) → (b || true) ≡ true
or_true b = ground arith

free_after_release :
    (peer : String) (now at : ℕ) (ms : List Peer)
    → any (claimable peer now) ms ≡ true
    → any (claimable peer at) (
        update
          (λ m. m.server_id == peer)
          (set_claim none)
          (update (claimable peer now) (set_claim (some now)) ms))
      ≡ true
free_after_release peer now at [] h = ground arith
free_after_release peer now at (m ∷ ms) h = elim (Bool-cases (claimable peer now m)) [
  | inl t ↦
      let mine = claimable-within peer now m t in
      let free : claimable peer at (set_claim none (set_claim (some now) m)) ≡ true =
        claimed_released peer now at m t in
      let same : ((set_claim (some now) m).server_id == peer) ≡ true =
        claim_server (some now) m peer mine in
      rw (t, same, free) refl
  | inr e ↦ let rest = free_after_release peer now at ms (rw e at h) in rw (e, rest) (or_true _)
]

any_mono :
    (p q : Peer → Bool) (ms : List Peer)
    → ((m : Peer) → p m ≡ true → q m ≡ true)
    → any p ms ≡ true
    → any q ms ≡ true
any_mono p q [] within h = ground arith
any_mono p q (m ∷ ms) within h = elim (Bool-cases (p m)) [
  | inl t ↦ rw (within m t) refl
  | inr e ↦ let rest = any_mono p q ms within (rw e at h) in ground arith
]

-- A peer that can be claimed is up.
pub claimed-peer_up :
    (db : Db) (peer : String) (now : ℕ)
    → (claim_peer_events db peer now).0 ≡ true
    → peer_up db peer ≡ true
unfolding claim_peer_events claimable peer_up
claimed-peer_up db peer now h =
    any_mono (claimable peer now) _ db.server_mesh
      (λ m c.
        let (s, rest) = and-true (m.server_id == peer) _ c in
        let (u, free) = and-true (up m) _ rest in rw (s, u) refl)
      h

no_claim_refreshed :
    (peer : String) (now later : ℕ) (ms : List Peer)
    → later ≤ now + 60
    → any (claimable peer later) (update (λ m. m.server_id == peer) (set_claim (some now)) ms)
      ≡ false
unfolding claimable set_claim up unclaimed
no_claim_refreshed peer now later [] le = refl
no_claim_refreshed peer now later (m ∷ ms) le =
    let rest = no_claim_refreshed peer now later ms le in ground (arith, rest, le)

no_claim_absent :
    (peer : String) (later : ℕ) (q : Peer → Bool) (at : Option ℕ) (ms : List Peer)
    → All (λ m. (m.server_id == peer) ≡ false) ms
    → any (claimable peer later) (update q (set_claim at) ms) ≡ false
unfolding claimable set_claim
no_claim_absent peer later q at [] h = refl
no_claim_absent peer later q at (m ∷ ms) h =
    let rest = no_claim_absent peer later q at ms h.1 in
    elim (Bool-cases (q m)) [ inl t ↦ rw (t, h.0) rest | inr e ↦ rw (e, h.0) rest ]

no_claim_claimed :
    (peer : String) (now later : ℕ) (ms : List Peer)
    → Distinct (λ m. m.server_id) ms
    → any (claimable peer now) ms ≡ true
    → later ≤ now + 60
    → any (claimable peer later) (update (claimable peer now) (set_claim (some now)) ms) ≡ false
no_claim_claimed peer now later [] d h le = ground arith
no_claim_claimed peer now later (m ∷ ms) d h le = elim (Bool-cases (claimable peer now m)) [
  | inl t ↦
      let here : m.server_id ≡ peer = (eq_iff m.server_id peer).0 (claimable-within peer now m t) in
      let others : All (λ y. (y.server_id == peer) ≡ false) ms =
        subst (λ s. All (λ (y : Peer). (y.server_id == s) ≡ false) ms) here d.0 in
      let absent = no_claim_absent peer later (claimable peer now) (some now) ms others in
      let held : claimable peer later (set_claim (some now) m) ≡ false =
        not_claimable peer now later m le in
      rw (t, held) absent
  | inr e ↦ elim (Bool-cases (m.server_id == peer)) [
    | inl mine ↦
        let here : m.server_id ≡ peer = (eq_iff m.server_id peer).0 mine in
        let others : All (λ y. (y.server_id == peer) ≡ false) ms =
          subst (λ s. All (λ (y : Peer). (y.server_id == s) ≡ false) ms) here d.0 in
        let absent : any (claimable peer now) ms ≡ false =
          any-claimable_absent peer now ms others in
        true-false (sym (rw e at h) ∙ absent)
    | inr other ↦
        let skip : claimable peer later m ≡ false = not_theirs peer later m other in
        rw (e, skip) (no_claim_claimed peer now later ms d.1 (rw e at h) le)
  ]
]

-- Where the peers' ids differ, a claim that succeeds makes every later one fail for 60 seconds, a
-- refresh makes them fail for 60 seconds from then, and after a release the next one succeeds.
pub claim_peer_events_lease :
    (db : Db) (peer : String) (now at refreshed later : ℕ)
    → Distinct (λ m. m.server_id) db.server_mesh
    → (claim_peer_events db peer now).0 ≡ true
    → at ≤ now + 60
    → later ≤ refreshed + 60
    → let claimed = (claim_peer_events db peer now).1 in
      ((claim_peer_events claimed peer at).0 ≡ false)
      × ((claim_peer_events (refresh_peer_events_claim claimed peer refreshed) peer later).0
          ≡ false)
      × ((claim_peer_events (release_peer_events claimed peer) peer at).0 ≡ true)
unfolding claim_peer_events refresh_peer_events_claim release_peer_events set_peer_claim
claim_peer_events_lease db peer now at refreshed later d h soon soon' = (
  no_claim_claimed peer now at db.server_mesh d h soon,
  no_claim_refreshed peer refreshed later _ soon',
  free_after_release peer now at db.server_mesh h,
)
