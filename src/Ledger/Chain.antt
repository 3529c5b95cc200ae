-- ===== src/Ledger/Chain.antt =====
-- The chain that src/backend/ledger_chain.go keeps, and what appending does to it.
use syrinx.Common.{
  ℕ, ◌+◌, ◌≤◌, ◌<◌, String, ◌≡◌, refl, sym, ap, subst, Bool, true, false, not, nat_eq, Option, none,
  some, List, [], ◌∷◌, ◌++◌, ok, err, arith, any, sort, find, Bool-cases, ◌==◌, >>=-eq-ok,
  ok_pair_inj, Failure, inl, inr,
}
use syrinx.Store.{LedgerEntry, ServerSignature, Db}
use syrinx.Identity.{canonical_id}
use syrinx.Signing.Payloads
use syrinx.Ledger.{
  has_next, armor_of, last_entry, prev_id_of, prev_signature_of, LedgerSigner, append_ledger_entry,
  number_entry, insert_entry,
}

-- From the entry numbered `prev` on: each entry names the one before it, numbers grow, and all are
-- below `next`.
abbrev pub ChainFrom : ℕ → List LedgerEntry → ℕ → Type 0
ChainFrom prev [] next = prev < next
ChainFrom prev (e ∷ es) next = (e.prev_id ≡ prev) × (prev < e.id) × ChainFrom e.id es next

-- The first entry's `prev_id` is 0.
abbrev pub IsChain : Db → Type 0
IsChain db = ChainFrom 0 db.ledger_entries db.next_ledger_id

abbrev pub last : List LedgerEntry → Option LedgerEntry
last [] = none
last (e ∷ []) = some e
last (e ∷ f ∷ es) = last (f ∷ es)

-- Nobody follows a number that the whole chain stays at or below.
abbrev pub top : ℕ → List LedgerEntry → ℕ
top prev [] = prev
top prev (e ∷ es) = top e.id es

top-le : (prev : ℕ) (es : List LedgerEntry) (next : ℕ) → ChainFrom prev es next → prev ≤ top prev es
top-le prev [] next c = omega arith
top-le prev (e ∷ es) next (_, lt, c) = omega (arith, top-le e.id es next c)

none_follows :
    (prev : ℕ) (es : List LedgerEntry) (next x : ℕ)
    → ChainFrom prev es next
    → top prev es ≤ x
    → has_next es x ≡ false
unfolding has_next
none_follows prev [] next x c h = refl
none_follows prev (e ∷ es) next x (e1, lt, c) h =
    ground (arith, none_follows e.id es next x c h, top-le e.id es next c)

find-last :
    (all es : List LedgerEntry) (prev next : ℕ)
    → ((p : LedgerEntry → Bool) → any p es ≡ true → any p all ≡ true)
    → ((x : ℕ) → top prev es ≤ x → has_next all x ≡ false)
    → ChainFrom prev es next
    → find (λ e. not (has_next all e.id)) es ≡ last es
find-last all [] prev next sub end c = refl
find-last all (e ∷ []) prev next sub end c = rw (end e.id (omega arith))
find-last all (e ∷ f ∷ es) prev next sub end (_, _, c) =
    let followed : has_next all e.id ≡ true =
      unfold has_next in sub (λ n. nat_eq n.prev_id e.id) (ground (arith, c)) in
    rw followed (find-last all (f ∷ es) e.id next (λ p h. sub p (any-later p e (f ∷ es) h)) end c)
  where
    any-later :
        (p : LedgerEntry → Bool) (e : LedgerEntry) (es : List LedgerEntry)
        → any p es ≡ true
        → any p (e ∷ es) ≡ true
    any-later p e es h = ground arith

-- In a chain the entry that nobody follows is the newest one.
last_entry-last : (es : List LedgerEntry) (next : ℕ) → ChainFrom 0 es next → last_entry es ≡ last es
unfolding last_entry
last_entry-last es next c =
    find-last es es 0 next (λ p h. h) (λ x h. none_follows 0 es next x c h) c

top-last :
    (prev : ℕ) (e : LedgerEntry) (es : List LedgerEntry)
    → top prev (e ∷ es) ≡ prev_id_of (last (e ∷ es))
unfolding prev_id_of
top-last prev e [] = refl
top-last prev e (f ∷ es) = top-last e.id f es

top-last_zero : (es : List LedgerEntry) → top 0 es ≡ prev_id_of (last es)
top-last_zero [] = unfold prev_id_of in refl
top-last_zero (e ∷ es) = top-last 0 e es

ChainFrom-append :
    (prev : ℕ) (es : List LedgerEntry) (next : ℕ) (e : LedgerEntry)
    → ChainFrom prev es next
    → e.prev_id ≡ top prev es
    → e.id ≡ next
    → ChainFrom prev (es ++ e ∷ []) (next + 1)
ChainFrom-append prev [] next e c p i = (p, omega arith, omega arith)
ChainFrom-append prev (f ∷ es) next e (p1, lt, c) p i =
    (p1, lt, ChainFrom-append f.id es next e c p i)

abbrev pub armor_at : Option LedgerEntry → String
armor_at none = ""
armor_at (some e) = elim e.server_signature [ none ↦ "" | some s ↦ s.armor ]

prev_signature-armor : (o : Option LedgerEntry) → prev_signature_of o ≡ armor_at o
unfolding prev_signature_of armor_of
prev_signature-armor none = refl
prev_signature-armor (some e) = ground arith

-- What appending `e` does: `entry` is stored. The signature is over the entry and the newest one's.
pub record Appended (sign : LedgerSigner) (server_id fingerprint : String) (now : ℕ) (before : Db)
    (e : LedgerEntry) (after : Db) (entry : LedgerEntry) : Type 0 where
  pub entries : after.ledger_entries ≡ before.ledger_entries ++ entry ∷ []
  pub number :
      (entry.id ≡ before.next_ledger_id) × (after.next_ledger_id ≡ before.next_ledger_id + 1)
  pub follows : entry.prev_id ≡ top 0 before.ledger_entries
  pub signed :
      (sig : ServerSignature) × (entry.server_signature ≡ some sig)
      × (sign
            (Payloads.ledger_entry entry.id entry.prev_id
              (armor_at (last before.ledger_entries))
              entry.kind
              entry.user_id
              entry.requester_id
              entry.requested_at
              entry.message
              entry.content
              entry.targets
              server_id
              fingerprint
              now)
            now
          ≡ ok sig)
  pub content :
      (entry.kind ≡ e.kind)
      × (entry.user_id ≡ e.user_id)
      × (entry.requester_id ≡ e.requester_id)
      × (entry.requested_at ≡ e.requested_at)
      × (entry.message ≡ e.message)
      × (entry.content ≡ e.content)
      × (entry.targets ≡ sort e.targets)
  pub chained : IsChain after

module _ (db : Db) (sign : LedgerSigner) (server_id fingerprint : String) (now : ℕ)
    (e : LedgerEntry) {after : Db} {entry : LedgerEntry} where
  right_key :
      append_ledger_entry db sign server_id fingerprint now e ≡ ok (after, entry)
      → (db.signing_key_id == canonical_id server_id fingerprint none) ≡ true
  unfolding append_ledger_entry
  right_key h = elim (Bool-cases (db.signing_key_id == canonical_id server_id fingerprint none)) [
    | inl t ↦ t
    | inr f ↦ absurd (wrong_key (rw f at h))
  ]
    where
      wrong_key : {A : Type 0} {x : A} {f : Failure} → err f ≡ ok x → ⊥
      wrong_key e = ground arith

  -- Appending to a chain keeps every entry in place and adds one behind the newest, which it names
  -- and whose signature it is signed over; the ledger is again one chain.
  pub append_ledger_entry-Appended :
      IsChain db
      → append_ledger_entry db sign server_id fingerprint now e ≡ ok (after, entry)
      → Appended sign server_id fingerprint now db e after entry
  unfolding append_ledger_entry number_entry insert_entry
  append_ledger_entry-Appended c h =
      let key = right_key h in
      let newest = last_entry-last db.ledger_entries db.next_ledger_id c in
      let body = rw (key, newest) at h in
      let (sig, made, h1) = >>=-eq-ok (sign _ now) _ body in
      let (ea, ee) = ok_pair_inj h1 in
      let es = db.ledger_entries in
      let stored : LedgerEntry = record (number_entry db.next_ledger_id (last es) e) {
        server_signature = some sig;
      } in
      let linked = sym (top-last_zero es) in
      subst (λ d. Appended sign server_id fingerprint now db e d entry) ea
        (subst (λ x. Appended sign server_id fingerprint now db e (insert_entry db stored) x) ee
          (record {
            entries = refl;
            number = (refl, refl);
            follows = linked;
            signed = (sig, refl, rw (prev_signature-armor (last es)) at made);
            chained = ChainFrom-append 0 es db.next_ledger_id stored c linked refl;
            content = (refl, refl, refl, refl, refl, refl, refl);
          }))

  pub append_ledger_entry-requests :
      append_ledger_entry db sign server_id fingerprint now e ≡ ok (after, entry)
      → after.admin_requests ≡ db.admin_requests
  unfolding append_ledger_entry insert_entry
  append_ledger_entry-requests h =
      let body = rw (right_key h) at h in
      let (sig, _, h1) = >>=-eq-ok (sign _ now) _ body in
      sym (ap (λ d. d.admin_requests) (ok_pair_inj h1).0)
