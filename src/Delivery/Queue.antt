-- ===== src/Delivery/Queue.antt =====
-- The order in which src/backend/services.go reads a peer's queue.
use syrinx.Common.{
  ◌<◌, String, Bool, true, false, not, ◌==◌, eq_iff, List, [], ◌∷◌, select, leb, nat_eq, All,
  All-select, All-map, Bool-cases, inl, inr, ◌≡◌, ◌≢◌, refl, sym, ap, subst, ◌∙◌, arith,
}
use syrinx.Store.{PeerEvent}
use syrinx.Delivery.{insert, by_id, owed}

-- Ids in ascending order, no two alike
abbrev pub Ascending : List PeerEvent → Type 0
Ascending [] = Unit
Ascending (x ∷ xs) = All (λ y. x.id < y.id) xs × Ascending xs

-- No two rows have one id.
abbrev pub DistinctIds : List PeerEvent → Type 0
DistinctIds [] = Unit
DistinctIds (x ∷ xs) = All (λ y. x.id ≢ y.id) xs × DistinctIds xs

pub All-insert :
    (P : PeerEvent → Type 0) (e : PeerEvent) (xs : List PeerEvent)
    → P e
    → All P xs
    → All P (insert e xs)
unfolding insert
All-insert P e [] p h = (p, tt)
All-insert P e (x ∷ xs) p h = elim (Bool-cases (leb e.id x.id)) [
  | inl t ↦ rw t (p, h)
  | inr f ↦ rw f (h.0, All-insert P e xs p h.1)
]

pub All-by_id : (P : PeerEvent → Type 0) (xs : List PeerEvent) → All P xs → All P (by_id xs)
unfolding by_id
All-by_id P [] h = tt
All-by_id P (x ∷ xs) h = All-insert P x (by_id xs) h.0 (All-by_id P xs h.1)

insert-first :
    (e : PeerEvent) (xs : List PeerEvent) → All (λ y. e.id < y.id) xs → insert e xs ≡ e ∷ xs
unfolding insert
insert-first e [] h = refl
insert-first e (x ∷ xs) h = ground (arith, h.0)

pub insert-Ascending :
    (e : PeerEvent) (xs : List PeerEvent)
    → All (λ y. e.id ≢ y.id) xs
    → Ascending xs
    → Ascending (insert e xs)
unfolding insert
insert-Ascending e [] n a = (tt, tt)
insert-Ascending e (x ∷ xs) n a = elim (Bool-cases (leb e.id x.id)) [
  | inl t ↦
      let lt : e.id < x.id = ground (arith, n.0) in
      rw t ((lt, All-map _ _ xs (λ y p. omega (arith, lt, p)) a.0), a)
  | inr f ↦
      let gt : x.id < e.id = ground arith in
      rw f (All-insert (λ y. x.id < y.id) e xs gt a.0, insert-Ascending e xs n.1 a.1)
]

pub by_id-Ascending : (xs : List PeerEvent) → DistinctIds xs → Ascending (by_id xs)
unfolding by_id
by_id-Ascending [] d = tt
by_id-Ascending (x ∷ xs) d =
    insert-Ascending x (by_id xs) (All-by_id (λ y. x.id ≢ y.id) xs d.0) (by_id-Ascending xs d.1)

pub select-DistinctIds :
    (p : PeerEvent → Bool) (xs : List PeerEvent) → DistinctIds xs → DistinctIds (select p xs)
select-DistinctIds p [] d = tt
select-DistinctIds p (x ∷ xs) d = elim (Bool-cases (p x)) [
  | inl t ↦ rw t (All-select (λ y. x.id ≢ y.id) p xs d.0, select-DistinctIds p xs d.1)
  | inr f ↦ rw f (select-DistinctIds p xs d.1)
]

select-insert_skip :
    (p : PeerEvent → Bool) (e : PeerEvent) (xs : List PeerEvent)
    → p e ≡ false
    → select p (insert e xs) ≡ select p xs
unfolding insert
select-insert_skip p e [] f = ground arith
select-insert_skip p e (x ∷ xs) f = let rest = select-insert_skip p e xs f in ground arith

select-insert :
    (p : PeerEvent → Bool) (e : PeerEvent) (xs : List PeerEvent)
    → p e ≡ true
    → All (λ y. e.id ≢ y.id) xs
    → Ascending xs
    → select p (insert e xs) ≡ insert e (select p xs)
unfolding insert
select-insert p e [] t n a = ground arith
select-insert p e (x ∷ xs) t n a = elim (Bool-cases (leb e.id x.id)) [
  | inl le ↦
      let lt : e.id < x.id = ground (arith, n.0) in
      let later : All (λ y. e.id < y.id) (x ∷ xs) =
        (lt, All-map _ _ xs (λ y p. omega (arith, lt, p)) a.0) in
      rw (le, t) (sym (insert-first e (select p (x ∷ xs)) (All-select _ p (x ∷ xs) later)))
  | inr gt ↦
      let rest = select-insert p e xs t n.1 a.1 in
      elim (Bool-cases (p x)) [
        | inl keep ↦ rw (gt, keep, gt) (ap (λ r. x ∷ r) rest)
        | inr skip ↦ rw (gt, skip) rest
      ]
]

-- Sorting the rows that a test keeps is keeping them of the sorted rows.
pub by_id-select :
    (p : PeerEvent → Bool) (xs : List PeerEvent)
    → DistinctIds xs
    → by_id (select p xs) ≡ select p (by_id xs)
unfolding by_id
by_id-select p [] d = refl
by_id-select p (x ∷ xs) d =
    let rest = by_id-select p xs d.1 in
    let fresh = All-by_id (λ y. x.id ≢ y.id) xs d.0 in
    elim (Bool-cases (p x)) [
      | inl t ↦
          rw t (
            ap (insert x) rest
            ∙ sym (select-insert p x (by_id xs) t fresh (by_id-Ascending xs d.1)))
      | inr f ↦ rw f (rest ∙ sym (select-insert_skip p x (by_id xs) f))
    ]

All-both :
    (P Q : PeerEvent → Type 0) (xs : List PeerEvent) → All P xs → All Q xs → All (λ x. P x × Q x) xs
All-both P Q [] h k = tt
All-both P Q (x ∷ xs) h k = ((h.0, k.0), All-both P Q xs h.1 k.1)

-- A row is known by its id.
by_its_id : (xs : List PeerEvent) → DistinctIds xs → All (λ y. All (λ z. z.id ≡ y.id → z ≡ y) xs) xs
by_its_id [] d = tt
by_its_id (x ∷ xs) d = (
  (λ e. refl, All-map _ _ xs (λ z n e. absurd (n (sym e))) d.0),
  All-map _ _ xs (λ y h. (λ e. absurd (h.0 e), h.1))
      (All-both (λ y. x.id ≢ y.id) _ xs d.0 (by_its_id xs d.1)),
)

select_all :
    (p : PeerEvent → Bool) (xs : List PeerEvent) → All (λ x. p x ≡ true) xs → select p xs ≡ xs
select_all p [] h = refl
select_all p (x ∷ xs) h = rw (h.0) (ap (λ r. x ∷ r) (select_all p xs h.1))

select-select :
    (p q : PeerEvent → Bool) (xs : List PeerEvent) → select p (select q xs) ≡ select q (select p xs)
select-select p q [] = refl
select-select p q (x ∷ xs) = let rest = select-select p q xs in ground arith

All-select-true : (p : PeerEvent → Bool) (xs : List PeerEvent) → All (λ x. p x ≡ true) (select p xs)
All-select-true p [] = tt
All-select-true p (x ∷ xs) = elim (Bool-cases (p x)) [
  | inl t ↦ rw t (t, All-select-true p xs)
  | inr f ↦ rw f (All-select-true p xs)
]

-- A property of every row is one of the first owed.
head_of_owed :
    (P : PeerEvent → Type 0) (peer : String) (queue : List PeerEvent) {ev : PeerEvent}
    {rest : List PeerEvent}
    → owed peer queue ≡ ev ∷ rest
    → All P queue
    → P ev × ((ev.server_id == peer) ≡ true)
unfolding owed
head_of_owed P peer queue {ev} {rest} e h =
    let mine = λ (x : PeerEvent). x.server_id == peer in
    let both : All (λ x. P x × (mine x ≡ true)) (by_id (select mine queue)) =
      All-by_id (λ x. P x × (mine x ≡ true)) (select mine queue)
        (All-both P (λ x. mine x ≡ true) (select mine queue) (All-select P mine queue h)
          (All-select-true mine queue)) in
    let found : All (λ x. P x × (mine x ≡ true)) (ev ∷ rest) =
      subst (λ l. All (λ x. P x × (mine x ≡ true)) l) e both in
    found.0

-- Deleting the first event leaves the others in their order.
pub owed-delete :
    (peer : String) (queue : List PeerEvent) {ev : PeerEvent} {rest : List PeerEvent}
    → DistinctIds queue
    → owed peer queue ≡ ev ∷ rest
    → owed peer (select (λ e. not (nat_eq e.id ev.id)) queue) ≡ rest
unfolding owed
owed-delete peer queue {ev} {rest} d e =
    let mine = λ (x : PeerEvent). x.server_id == peer in
    let kept = λ (x : PeerEvent). not (nat_eq x.id ev.id) in
    let distinct = select-DistinctIds mine queue d in
    let ascending : Ascending (ev ∷ rest) =
      subst (λ l. Ascending l) e (by_id-Ascending (select mine queue) distinct) in
    let gone : select kept (ev ∷ rest) ≡ rest =
      let self : kept ev ≡ false = ground arith in
      rw self (select_all kept rest (All-map _ _ rest (λ y lt. ground (arith, lt)) ascending.0)) in
    ap (λ l. by_id l) (select-select mine kept queue)
    ∙ by_id-select kept (select mine queue) distinct
    ∙ ap (λ l. select kept l) e
    ∙ gone

-- It leaves the other peers' events as they were.
pub owed-delete_other :
    (peer other : String) (queue : List PeerEvent) {ev : PeerEvent} {rest : List PeerEvent}
    → DistinctIds queue
    → owed peer queue ≡ ev ∷ rest
    → other ≢ peer
    → owed other (select (λ e. not (nat_eq e.id ev.id)) queue) ≡ owed other queue
unfolding owed
owed-delete_other peer other queue {ev} {rest} d e n =
    let theirs = λ (x : PeerEvent). x.server_id == other in
    let kept = λ (x : PeerEvent). not (nat_eq x.id ev.id) in
    let (unique, mine) =
      head_of_owed (λ y. All (λ z. z.id ≡ y.id → z ≡ y) queue) peer queue e (by_its_id queue d) in
    let server : ev.server_id ≡ peer = (eq_iff ev.server_id peer).0 mine in
    let all_kept : All (λ x. kept x ≡ true) (select theirs queue) =
      All-map _ _ (select theirs queue)
        (λ x (same, t).
          let there : x.server_id ≡ other = (eq_iff x.server_id other).0 t in
          elim (Bool-cases (kept x)) [
            | inl k ↦ k
            | inr k ↦
                let id : x.id ≡ ev.id = ground arith in
                let owner : x.server_id ≡ ev.server_id = ap (λ z. z.server_id) (same id) in
                absurd (n (sym there ∙ owner ∙ server))
          ])
        (All-both (λ z. z.id ≡ ev.id → z ≡ ev) (λ x. theirs x ≡ true) (select theirs queue)
          (All-select _ theirs queue unique) (All-select-true theirs queue)) in
    ap (λ l. by_id l)
      (select-select theirs kept queue ∙ select_all kept (select theirs queue) all_kept)
