-- ===== src/Ledger/Pages/Tail.antt =====
-- Which entries GetLedgerTail of src/backend/ledger.go returns.
use syrinx.Common.{ℕ, zero, suc, ◌-◌, ◌≤◌, ◌<◌, ◌≡◌, refl, ap, ◌∙◌, List, [], ◌∷◌, ◌++◌, arith}
use syrinx.Store.{LedgerEntry, Db}
use syrinx.Ledger.Chain.{ChainFrom, IsChain}
use syrinx.Ledger.Pages.{followers, followers_all, levels, get_ledger_tail}

abbrev pub take : ℕ → List LedgerEntry → List LedgerEntry
take zero es = []
take (suc n) [] = []
take (suc n) (e ∷ es) = e ∷ take n es

-- Behind a number that the chain has passed nothing follows.
followers_none :
    (prev : ℕ) (es : List LedgerEntry) (next i : ℕ)
    → ChainFrom prev es next
    → i < prev
    → followers es i ≡ []
unfolding followers
followers_none prev [] next i c lt = refl
followers_none prev (e ∷ es) next i (p, up, c) lt = ground (arith, followers_none e.id es next i c)

reach :
    (prev : ℕ) (xs : List LedgerEntry) (e : LedgerEntry) (ys : List LedgerEntry) (next : ℕ)
    → ChainFrom prev (xs ++ e ∷ ys) next
    → (prev < e.id) × ChainFrom e.id ys next
reach prev [] e ys next (p, up, c) = (up, c)
reach prev (x ∷ xs) e ys next (p, up, c) =
    let (lt, rest) = reach x.id xs e ys next c in (omega arith, rest)

-- What stands before an entry does not follow it, nor anything later.
followers_later :
    (prev : ℕ) (xs : List LedgerEntry) (e : LedgerEntry) (ys : List LedgerEntry) (next i : ℕ)
    → ChainFrom prev (xs ++ e ∷ ys) next
    → e.id ≤ i
    → followers (xs ++ e ∷ ys) i ≡ followers ys i
unfolding followers
followers_later prev [] e ys next i (p, up, c) le = ground arith
followers_later prev (x ∷ xs) e ys next i (p, up, c) le =
    let (lt, _) = reach x.id xs e ys next c in
    let rest = followers_later x.id xs e ys next i c le in ground arith

-- One after the other, each the only one that follows.
abbrev Follow : List LedgerEntry → ℕ → List LedgerEntry → Type 0
Follow all i [] = followers all i ≡ []
Follow all i (y ∷ ys) = (followers all i ≡ y ∷ []) × Follow all y.id ys

head_follows :
    (prev : ℕ) (y : LedgerEntry) (ys : List LedgerEntry) (next : ℕ)
    → ChainFrom prev (y ∷ ys) next
    → 0 < prev
    → followers (y ∷ ys) prev ≡ y ∷ []
unfolding followers
head_follows prev y ys next (p, up, c) pos =
    let rest = followers_none y.id ys next prev c up in ground arith

head_skipped :
    (prev i : ℕ) (y : LedgerEntry) (ys : List LedgerEntry)
    → y.prev_id ≡ prev
    → prev < i
    → followers (y ∷ ys) i ≡ followers ys i
unfolding followers
head_skipped prev i y ys p lt = ground arith

chain-Follow :
    (all : List LedgerEntry) (prev : ℕ) (ys : List LedgerEntry) (next : ℕ)
    → ChainFrom prev ys next
    → 0 < prev
    → ((i : ℕ) → prev ≤ i → followers all i ≡ followers ys i)
    → Follow all prev ys
unfolding followers
chain-Follow all prev [] next c pos same = same prev (omega arith)
chain-Follow all prev (y ∷ ys) next (p, up, c) pos same = (
  same prev (omega arith) ∙ head_follows prev y ys next (p, up, c) pos,
  chain-Follow all y.id ys next c (omega arith)
      (λ i le. same i (omega arith) ∙ head_skipped prev i y ys p (omega arith)),
)

append_nil : (es : List LedgerEntry) → es ++ [] ≡ es
append_nil [] = refl
append_nil (e ∷ es) = ap (λ rest. e ∷ rest) (append_nil es)

levels_nil : (all : List LedgerEntry) (n : ℕ) → levels all n [] ≡ []
unfolding levels followers_all
levels_nil all zero = refl
levels_nil all (suc n) = levels_nil all n

levels-Follow :
    (all : List LedgerEntry) (n i : ℕ) (ys : List LedgerEntry)
    → Follow all i ys
    → levels all n (followers all i) ≡ take (suc n) ys
unfolding levels followers_all
levels-Follow all n i [] f = rw f (levels_nil all n)
levels-Follow all zero i (y ∷ ys) f = f.0
levels-Follow all (suc n) i (y ∷ ys) f =
    rw (f.0, append_nil (followers all y.id)) (ap (λ es. y ∷ es) (levels-Follow all n y.id ys f.1))

-- On a chained ledger, the tail after an entry is the next entries in order, as many as the limit
-- allows, for a limit that is not 0.
pub get_ledger_tail-take :
    (db : Db) (xs : List LedgerEntry) (e : LedgerEntry) (ys : List LedgerEntry) (limit : ℕ)
    → IsChain db
    → db.ledger_entries ≡ xs ++ e ∷ ys
    → 0 < limit
    → get_ledger_tail db e.id limit ≡ take limit ys
unfolding get_ledger_tail
get_ledger_tail-take db xs e ys zero chain split pos = absurd (omega arith)
get_ledger_tail-take db xs e ys (suc n) chain split pos =
    let chained : ChainFrom 0 (xs ++ e ∷ ys) db.next_ledger_id = rw split at chain in
    let (lt, rest) = reach 0 xs e ys db.next_ledger_id chained in
    let less : suc n - 1 ≡ n = omega arith in
    rw (split, less)
      (levels-Follow (xs ++ e ∷ ys) n e.id ys (
        chain-Follow (xs ++ e ∷ ys) e.id ys db.next_ledger_id rest lt
          (λ i le. followers_later 0 xs e ys db.next_ledger_id i chained le)))
