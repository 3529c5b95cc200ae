-- ===== src/KeyChain/Order.antt =====
-- chainOrder of src/backend/server_key.go.
use mathlib.Core.List.{Permᴰ}
use mathlib.Core.List.Permᴰ
use syrinx.Common.{
  ℕ, zero, suc, String, ◌≡◌, refl, sym, ap, subst, ◌∙◌, ◌⊎◌, inl, inr, Bool, true, false, ◌==◌,
  eq_iff, eq_refl, none, some, List, [], ◌∷◌, ok, ok_inj, arith, length, All, All-map, any,
  Option-cases, text_cases, >>=-eq-ok, or_fail,
}
use syrinx.KeyChain.{
  ServerKeyRevocation, Revocations, or_first, by_key, is_successor, first_key, follow, chain_order,
}

module _ {ℓ} {A : Type ℓ} where
  any-perm : (p : A → Bool) {xs ys : List A} → Permᴰ xs ys → any p xs ≡ any p ys
  any-perm p Permᴰ.nil = refl
  any-perm p (Permᴰ.cons e r) = rw (e, any-perm p r)
  any-perm p (Permᴰ.swap {a} {b} {a'} {b'} {l} e f) = rw (e, f) (ground arith)
  any-perm p (Permᴰ.trans r s) = any-perm p r ∙ any-perm p s

  length-perm : {xs ys : List A} → Permᴰ xs ys → length xs ≡ length ys
  length-perm Permᴰ.nil = refl
  length-perm (Permᴰ.cons e r) = ap suc (length-perm r)
  length-perm (Permᴰ.swap e f) = refl
  length-perm (Permᴰ.trans r s) = length-perm r ∙ length-perm s

  All-perm {κ} : (P : A → Type κ) {xs ys : List A} → Permᴰ xs ys → All P xs → All P ys
  All-perm P Permᴰ.nil h = tt
  All-perm P (Permᴰ.cons e r) h = (subst P e h.0, All-perm P r h.1)
  All-perm P (Permᴰ.swap e f) h = (subst P f h.1.0, (subst P e h.0, h.1.1))
  All-perm P (Permᴰ.trans r s) h = All-perm P s (All-perm P r h)

abbrev has_key : String → Revocations → Bool
has_key key revs = any (λ rev. rev.key_id == key) revs

-- No two rows revoke one key: `key_id` is the table's primary key.
abbrev pub DistinctKeys : Revocations → Type 0
DistinctKeys [] = Unit
DistinctKeys (rev ∷ revs) = (has_key rev.key_id revs ≡ false) × DistinctKeys revs

-- Each revocation's successor is the key that the next one revokes.
abbrev pub IsLinked : Revocations → Type 0
IsLinked [] = Unit
IsLinked (rev ∷ []) = Unit
IsLinked (rev ∷ next ∷ revs) = (rev.successor ≡ next.key_id) × IsLinked (next ∷ revs)

swap-DistinctKeys :
    (a b : ServerKeyRevocation) (l : Revocations)
    → DistinctKeys (a ∷ b ∷ l)
    → DistinctKeys (b ∷ a ∷ l)
swap-DistinctKeys a b l h = ground (arith, eq_iff a.key_id b.key_id, eq_iff b.key_id a.key_id)

DistinctKeys-perm : {xs ys : Revocations} → Permᴰ xs ys → DistinctKeys xs → DistinctKeys ys
DistinctKeys-perm Permᴰ.nil h = tt
DistinctKeys-perm (Permᴰ.cons {a} {b} {l₁} {l₂} e r) h = (
  subst (λ x. has_key x.key_id l₂ ≡ false) e (sym (any-perm (λ v. v.key_id == a.key_id) r) ∙ h.0),
  DistinctKeys-perm r h.1,
)
DistinctKeys-perm (Permᴰ.swap {a} {b} {a'} {b'} {l} e f) h =
    subst (λ x. DistinctKeys (x ∷ b' ∷ l)) f
      (subst (λ x. DistinctKeys (b ∷ x ∷ l)) e (swap-DistinctKeys a b l h))
DistinctKeys-perm (Permᴰ.trans r s) h = DistinctKeys-perm s (DistinctKeys-perm r h)

-- In a table with distinct keys each row is found under its key.
by_key-missing :
    (key : String) (revs : Revocations) → has_key key revs ≡ false → by_key revs key ≡ none
unfolding by_key or_first
by_key-missing key [] h = refl
by_key-missing key (rev ∷ revs) h = ground (arith, by_key-missing key revs (ground arith))

later :
    (rev r : ServerKeyRevocation) (revs : Revocations)
    → by_key revs r.key_id ≡ some r
    → by_key (rev ∷ revs) r.key_id ≡ some r
unfolding by_key or_first
later rev r revs h = rw h

by_key_self :
    (revs : Revocations) → DistinctKeys revs → All (λ rev. by_key revs rev.key_id ≡ some rev) revs
unfolding by_key or_first
by_key_self [] h = tt
by_key_self (rev ∷ revs) h = (
  rw (by_key-missing rev.key_id revs h.0, eq_refl rev.key_id),
  All-map (λ r. by_key revs r.key_id ≡ some r) _ revs (λ r. later rev r revs)
      (by_key_self revs h.1),
)

follow-linked :
    (revs : Revocations) (rev : ServerKeyRevocation) (rest : Revocations)
    → IsLinked (rev ∷ rest)
    → All (λ r. by_key revs r.key_id ≡ some r) (rev ∷ rest)
    → follow revs (length (rev ∷ rest)) rev.key_id ≡ ok (rev ∷ rest)
unfolding follow
follow-linked revs rev [] l h = rw h.0
follow-linked revs rev (next ∷ rest) l h = rw (h.0, l.0, follow-linked revs next rest l.1 h.1)

-- `first_key` passes over successors, and stops at the one key that is none.
first_key-skip :
    (all revs : Revocations) (next : String)
    → All (λ r. is_successor all r.key_id ≡ true) revs
    → first_key all revs next ≡ ok next
unfolding first_key
first_key-skip all [] next h = refl
first_key-skip all (rev ∷ revs) next h = rw (h.0, first_key-skip all revs next h.1)

abbrev HeadOr : Revocations → String → ServerKeyRevocation → Type 0
HeadOr all head r = (is_successor all r.key_id ≡ true) ⊎ (r.key_id ≡ head)

others :
    (all revs : Revocations) (head : String)
    → All (HeadOr all head) revs
    → has_key head revs ≡ false
    → All (λ r. is_successor all r.key_id ≡ true) revs
others all [] head h n = tt
others all (rev ∷ revs) head (inl s, h) n = (s, others all revs head h (ground arith))
others all (rev ∷ revs) head (inr e, h) n = ground (arith, eq_iff rev.key_id head)

first_key-head :
    (all revs : Revocations) (head : String)
    → is_successor all head ≡ false
    → DistinctKeys revs
    → All (HeadOr all head) revs
    → has_key head revs ≡ true
    → first_key all revs "" ≡ ok head
unfolding first_key
first_key-head all [] head n d h f = ground arith
first_key-head all (rev ∷ revs) head n d h f = elim (text_cases rev.key_id head) [
  | inl (e, t) ↦
      let alone : has_key head revs ≡ false = rw e at d.0 in
      let missing : is_successor all rev.key_id ≡ false = rw e n in
      rw (missing, e) (first_key-skip all revs head (others all revs head h.1 alone))
  | inr (ne, t) ↦
      let later_on : has_key head revs ≡ true = ground arith in
      let succeeds : is_successor all rev.key_id ≡ true = ground (arith, h.0) in
      rw succeeds (first_key-head all revs head n d.1 h.1 later_on)
]

-- In a linked chain every key but the first is a successor.
succeeded :
    (all : Revocations) (rev : ServerKeyRevocation) (rest : Revocations)
    → IsLinked (rev ∷ rest)
    → All (λ r. is_successor all r.successor ≡ true) (rev ∷ rest)
    → All (λ r. is_successor all r.key_id ≡ true) rest
succeeded all rev [] l h = tt
succeeded all rev (next ∷ rest) l h =
    (subst (λ k. is_successor all k ≡ true) l.0 h.0, succeeded all next rest l.1 h.1)

linked-HeadOr :
    (all : Revocations) (rev : ServerKeyRevocation) (rest : Revocations)
    → IsLinked (rev ∷ rest)
    → All (λ r. is_successor all r.successor ≡ true) (rev ∷ rest)
    → All (HeadOr all rev.key_id) (rev ∷ rest)
linked-HeadOr all rev rest l h =
    (inr refl, All-map _ (HeadOr all rev.key_id) rest (λ r. inl) (succeeded all rev rest l h))

is_successor_self : (revs : Revocations) → All (λ r. is_successor revs r.successor ≡ true) revs
unfolding is_successor
is_successor_self [] = tt
is_successor_self (rev ∷ revs) = (
  rw (eq_refl rev.successor),
  All-map (λ r. any (λ v. v.successor == r.successor) revs ≡ true) _ revs (λ r h. ground (arith, h))
      (is_successor_self revs),
)

-- The first key of a chain succeeds none of it.
abbrev pub Starts : Revocations → Type 0
Starts [] = Unit
Starts (rev ∷ revs) = is_successor (rev ∷ revs) rev.key_id ≡ false

-- Whatever order the rows of an unbroken chain with distinct keys are read in, the chain comes out.
pub chain_order-perm :
    (revs chain : Revocations)
    → Permᴰ revs chain
    → DistinctKeys chain
    → IsLinked chain
    → Starts chain
    → chain_order revs ≡ ok chain
chain_order-perm [] [] r d l s = unfold chain_order first_key follow in refl
chain_order-perm (rev ∷ revs) [] r d l s = absurd (omega (arith, length-perm r))
chain_order-perm revs (head ∷ rest) r d l s =
    let distinct = DistinctKeys-perm (Permᴰ.symm r) d in
    let entries = linked-HeadOr revs head rest l (All-perm _ r (is_successor_self revs)) in
    let first : first_key revs revs "" ≡ ok head.key_id =
      first_key-head revs revs head.key_id (unfold is_successor in any-perm _ r ∙ s) distinct
        (All-perm _ (Permᴰ.symm r) entries) (any-perm _ r ∙ rw (eq_refl head.key_id)) in
    unfold chain_order in
    rw (first, length-perm r)
      (follow-linked revs head rest l (All-perm _ r (by_key_self revs distinct)))

by_key_sound :
    (revs : Revocations) (key : String) (r : ServerKeyRevocation)
    → by_key revs key ≡ some r
    → r.key_id ≡ key
unfolding by_key or_first
by_key_sound [] key r h = ground arith
by_key_sound (rev ∷ revs) key r h = elim (Option-cases (by_key revs key)) [
  | inl e ↦ ground (arith, e, eq_iff rev.key_id key)
  | inr (x, e) ↦ by_key_sound revs key r (ground (arith, e))
]

abbrev StartsAt : String → Revocations → Type 0
StartsAt next [] = Unit
StartsAt next (rev ∷ revs) = rev.key_id ≡ next

abbrev Followed : Revocations → ℕ → String → Revocations → Type 0
Followed revs n next out =
    IsLinked out
    × (length out ≡ n)
    × All (λ r. by_key revs r.key_id ≡ some r) out
    × StartsAt next out

IsLinked-cons :
    (rev : ServerKeyRevocation) (rest : Revocations)
    → IsLinked rest
    → StartsAt rev.successor rest
    → IsLinked (rev ∷ rest)
IsLinked-cons rev [] l s = tt
IsLinked-cons rev (next ∷ rest) l s = (sym s, l)

follow_sound :
    (revs : Revocations) (n : ℕ) (next : String) (out : Revocations)
    → follow revs n next ≡ ok out
    → Followed revs n next out
unfolding follow
follow_sound revs zero next out h = subst (Followed revs zero next) (ok_inj h) (tt, refl, tt, tt)
follow_sound revs (suc n) next out h =
    let (rev, found, h1) = >>=-eq-ok (or_fail (by_key revs next) _) _ h in
    let (rest, more, h2) = >>=-eq-ok (follow revs n rev.successor) _ h1 in
    let (linked, size, rows, starts) = follow_sound revs n rev.successor rest more in
    let row : by_key revs next ≡ some rev = ground arith in
    let key = by_key_sound revs next rev row in
    subst (Followed revs (suc n) next) (ok_inj h2) (
      IsLinked-cons rev rest linked starts,
      ap suc size,
      (subst (λ k. by_key revs k ≡ some rev) (sym key) row, rows),
      key,
    )

-- What chainOrder returns is linked, has as many revocations as the table, and each is a row.
pub chain_order_sound :
    (revs out : Revocations)
    → chain_order revs ≡ ok out
    → IsLinked out × (length out ≡ length revs) × All (λ r. by_key revs r.key_id ≡ some r) out
unfolding chain_order
chain_order_sound revs out h =
    let (next, first, h1) = >>=-eq-ok (first_key revs revs "") _ h in
    let (linked, size, rows, starts) = follow_sound revs (length revs) next out h1 in
    (linked, size, rows)
