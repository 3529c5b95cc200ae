-- ===== src/Mentions/Reference.antt =====
-- ValidateMentionClaims of src/backend/mentions.go against a pipeline: the refs of the claims, less
-- the author's, each where it first stands.
use syrinx.Common.{
  String, Bool, true, false, ◌&&◌, not, ◌==◌, if◌then◌else◌, none, some, List, [], ◌∷◌, select, All,
  All-select, All-map, Option-cases, Bool-cases, inl, inr, ◌≡◌, refl, sym, ap, subst, ◌∙◌, arith,
  eq_iff, and-true,
}
use syrinx.Mentions.{
  ReedRef, same_ref, canonical_author_id, claim_ref, seen_ref, collect, validate_mention_claims,
}

unfoldable pub refs : List String → List ReedRef
refs [] = []
refs (claim ∷ claims) =
    let rest = refs claims in elim (claim_ref claim) [ none ↦ rest | some ref ↦ ref ∷ rest ]

abbrev pub of_others : String → ReedRef → Bool
of_others author_id ref = not (canonical_author_id ref == author_id)

-- Each ref where it first stands
abbrev pub first_ones : List ReedRef → List ReedRef
first_ones [] = []
first_ones (r ∷ rs) = r ∷ select (λ x. not (same_ref r x)) (first_ones rs)

select-and :
    (p q : ReedRef → Bool) (xs : List ReedRef)
    → select p (select q xs) ≡ select (λ x. q x && p x) xs
select-and p q [] = refl
select-and p q (x ∷ xs) = let rest = select-and p q xs in ground arith

select_ext :
    (p q : ReedRef → Bool) (xs : List ReedRef)
    → ((x : ReedRef) → p x ≡ q x)
    → select p xs ≡ select q xs
select_ext p q [] e = refl
select_ext p q (x ∷ xs) e = rw (e x, select_ext p q xs e) refl

unseen : List ReedRef → ReedRef → Bool
unseen seen x = not (seen_ref seen x)

same_ref→eq : (a b : ReedRef) → same_ref a b ≡ true → a ≡ b
same_ref→eq a b h =
    let (h1, reed) =
      and-true (a.author_id == b.author_id && a.server_id == b.server_id) (a.reed_id == b.reed_id)
        h in
    let (author, server) = and-true (a.author_id == b.author_id) (a.server_id == b.server_id) h1 in
    let u = (eq_iff _ _).0 author in
    let v = (eq_iff _ _).0 server in
    let w = (eq_iff _ _).0 reed in λ i. record { author_id = u i; server_id = v i; reed_id = w i }

seen_again :
    (seen : List ReedRef) (ref x : ReedRef)
    → seen_ref seen ref ≡ true
    → (not (same_ref ref x) && unseen seen x) ≡ unseen seen x
unfolding unseen
seen_again seen ref x h = elim (Bool-cases (same_ref ref x)) [
  | inl t ↦
      let known : seen_ref seen x ≡ true =
        subst (λ y. seen_ref seen y ≡ true) (same_ref→eq ref x t) h in
      rw (t, known) refl
  | inr f ↦ rw f refl
]

seen_more :
    (seen : List ReedRef) (ref x : ReedRef)
    → (not (same_ref ref x) && unseen seen x) ≡ unseen (ref ∷ seen) x
unfolding unseen seen_ref
seen_more seen ref x = ground arith

-- What the pipeline makes of one more ref.
keep_new :
    (seen rest : List ReedRef) (ref : ReedRef) (skipped taken : List ReedRef)
    → skipped ≡ select (unseen seen) rest
    → taken ≡ select (unseen (ref ∷ seen)) rest
    → (if seen_ref seen ref then skipped else ref ∷ taken)
      ≡ select (unseen seen) (ref ∷ select (λ x. not (same_ref ref x)) rest)
unfolding unseen
keep_new seen rest ref skipped taken s t =
    let both = select-and (unseen seen) (λ x. not (same_ref ref x)) rest in
    elim (Bool-cases (seen_ref seen ref)) [
      | inl again ↦
          rw again
            (s ∙ sym (both ∙ select_ext _ (unseen seen) rest (λ x. seen_again seen ref x again)))
      | inr new ↦ rw new (
          ap (λ l. ref ∷ l)
            (t ∙ sym (both ∙ select_ext _ (unseen (ref ∷ seen)) rest (λ x. seen_more seen ref x))))
    ]

-- The loop keeps what the pipeline keeps and it has not seen.
collect-first_ones :
    (author_id : String) (seen : List ReedRef) (claims : List String)
    → collect author_id seen claims
      ≡ select (unseen seen) (first_ones (select (of_others author_id) (refs claims)))
unfolding collect refs
collect-first_ones author_id seen [] = refl
collect-first_ones author_id seen (claim ∷ claims) = elim (Option-cases (claim_ref claim)) [
  | inl n ↦ rw (collect, refs, n) (collect-first_ones author_id seen claims)
  | inr (ref, r) ↦
      let rest = first_ones (select (of_others author_id) (refs claims)) in
      let skipped = collect-first_ones author_id seen claims in
      let taken = collect-first_ones author_id (ref ∷ seen) claims in
      elim (Bool-cases (canonical_author_id ref == author_id)) [
        | inl own ↦ rw (collect, refs, r, own) skipped
        | inr other ↦ rw (collect, refs, r, other) (keep_new seen rest ref _ _ skipped taken)
      ]
]

select_every : (xs : List ReedRef) → select (unseen []) xs ≡ xs
unfolding unseen seen_ref
select_every [] = refl
select_every (x ∷ xs) = ap (λ l. x ∷ l) (select_every xs)

-- The loop over the mention claims gives the refs that are read from the claims, less those of the
-- author, each where it first stands.
pub validate_mention_claims-first_ones :
    (claims : List String) (author_id : String)
    → validate_mention_claims claims author_id
      ≡ first_ones (select (of_others author_id) (refs claims))
unfolding validate_mention_claims
validate_mention_claims-first_ones claims author_id =
    collect-first_ones author_id [] claims ∙ select_every _

abbrev pub Apart : List ReedRef → Type 0
Apart [] = Unit
Apart (x ∷ xs) = All (λ y. same_ref x y ≡ false) xs × Apart xs

Apart-select : (p : ReedRef → Bool) (xs : List ReedRef) → Apart xs → Apart (select p xs)
Apart-select p [] a = tt
Apart-select p (x ∷ xs) a = elim (Bool-cases (p x)) [
  | inl t ↦ rw t (All-select _ p xs a.0, Apart-select p xs a.1)
  | inr f ↦ rw f (Apart-select p xs a.1)
]

All-selected : (p : ReedRef → Bool) (xs : List ReedRef) → All (λ x. p x ≡ true) (select p xs)
All-selected p [] = tt
All-selected p (x ∷ xs) = elim (Bool-cases (p x)) [
  | inl t ↦ rw t (t, All-selected p xs)
  | inr f ↦ rw f (All-selected p xs)
]

first_ones-Apart : (xs : List ReedRef) → Apart (first_ones xs)
first_ones-Apart [] = tt
first_ones-Apart (x ∷ xs) = (
  All-map _ _ (select (λ y. not (same_ref x y)) (first_ones xs)) (λ y n. ground arith)
      (All-selected (λ y. not (same_ref x y)) (first_ones xs)),
  Apart-select (λ y. not (same_ref x y)) (first_ones xs) (first_ones-Apart xs),
)

All-first_ones : (P : ReedRef → Type 0) (xs : List ReedRef) → All P xs → All P (first_ones xs)
All-first_ones P [] h = tt
All-first_ones P (x ∷ xs) h = (h.0, All-select P _ (first_ones xs) (All-first_ones P xs h.1))

-- No accepted mention is of the author, and no two are the same.
pub validate_mention_claims-Apart :
    (claims : List String) (author_id : String)
    → let out = validate_mention_claims claims author_id in
      All (λ ref. (canonical_author_id ref == author_id) ≡ false) out × Apart out
validate_mention_claims-Apart claims author_id =
    let others = select (of_others author_id) (refs claims) in
    let not_own : All (λ ref. (canonical_author_id ref == author_id) ≡ false) others =
      All-map _ _ others (λ y n. ground arith) (All-selected (of_others author_id) (refs claims)) in
    subst (λ out. All (λ ref. (canonical_author_id ref == author_id) ≡ false) out × Apart out)
      (sym (validate_mention_claims-first_ones claims author_id))
      (All-first_ones _ others not_own, first_ones-Apart others)
