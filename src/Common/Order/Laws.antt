-- ===== src/Common/Order/Laws.antt =====
-- Sorting gives a sorted list of the same texts, and compacting a sorted list makes it strict.
use Prim.Native.Nat.{suc, ◌≤◌}
use Prim.Native.String.{String}
use mathlib.Core.Path.{◌≡◌, refl, ap, ◌∙◌}
use mathlib.Core.Logic.{◌≢◌, inl, inr}
use mathlib.Core.Bool.{true, false, ◌||◌}
use mathlib.Core.List.{List, [], ◌∷◌}
use native.Mathlib.Omega.{arith}
use text.Mathlib.Text.{◌==◌}
use text.Mathlib.TextEquality.{eq_iff}
use syrinx.Common.Tests.{Bool-cases, text_cases}
use syrinx.Common.Lists.{length, contains}
use syrinx.Common.Order.{
  text_lt, text_lt_irrefl, text_lt_asymm, text_lt_antisymm, insert, sort, keep_new, compact,
  StrictlySorted, Sorted,
}

insert-Sorted : (x : String) (xs : List String) → Sorted xs → Sorted (insert x xs)
unfolding insert
insert-Sorted x [] h = tt
insert-Sorted x (y ∷ []) h = elim (Bool-cases (text_lt y x)) [
  | inl t ↦ rw t (text_lt_asymm y x t, tt)
  | inr e ↦ rw e (e, tt)
]
insert-Sorted x (y ∷ z ∷ ys) h = elim (Bool-cases (text_lt y x)) [
  | inl t ↦ elim (Bool-cases (text_lt z x)) [
    | inl t' ↦ ground (arith, t, t', insert-Sorted x (z ∷ ys) h.1)
    | inr e' ↦ ground (arith, t, e', text_lt_asymm y x t, h)
  ]
  | inr e ↦ rw e (e, h)
]

sort-Sorted : (xs : List String) → Sorted (sort xs)
unfolding sort
sort-Sorted [] = tt
sort-Sorted (x ∷ xs) = insert-Sorted x (sort xs) (sort-Sorted xs)

abbrev HeadNotBelow : String → List String → Type 0
HeadNotBelow x [] = Unit
HeadNotBelow x (y ∷ ys) = text_lt y x ≡ false

keep_new_strict :
    (x : String) (zs : List String)
    → HeadNotBelow x zs
    → StrictlySorted zs
    → StrictlySorted (keep_new x zs)
unfolding keep_new
keep_new_strict x [] h k = tt
keep_new_strict x (y ∷ ys) h k = elim (text_cases x y) [
  | inl (_, t) ↦ rw t k
  | inr (ne, f) ↦ rw f (lt_of_ne x y ne h, k)
]
  where
    lt_of_ne : (x y : String) → x ≢ y → text_lt y x ≡ false → text_lt x y ≡ true
    lt_of_ne x y ne h = elim (Bool-cases (text_lt x y)) [
      | inl t ↦ t
      | inr f ↦ absurd (ne (text_lt_antisymm x y f h))
    ]

keep_new_head :
    (x y : String) (zs : List String) → text_lt y x ≡ false → HeadNotBelow x (keep_new y zs)
unfolding keep_new
keep_new_head x y [] h = h
keep_new_head x y (z ∷ zs) h = elim (text_cases y z) [
  | inl (e, t) ↦ rw t (rw e at h)
  | inr (_, f) ↦ rw f h
]

compact_head : (x : String) (ys : List String) → HeadNotBelow x ys → HeadNotBelow x (compact ys)
unfolding compact
compact_head x [] h = tt
compact_head x (y ∷ ys) h = keep_new_head x y (compact ys) h

Sorted-head : (x : String) (ys : List String) → Sorted (x ∷ ys) → HeadNotBelow x ys × Sorted ys
Sorted-head x [] h = (tt, tt)
Sorted-head x (y ∷ ys) h = h

compact-StrictlySorted : (xs : List String) → Sorted xs → StrictlySorted (compact xs)
unfolding compact
compact-StrictlySorted [] h = tt
compact-StrictlySorted (x ∷ xs) h =
    let (head, rest) = Sorted-head x xs h in
    keep_new_strict x (compact xs) (compact_head x xs head) (compact-StrictlySorted xs rest)

-- Sorting and compacting any texts leaves each once, in order.
pub compact-sort-StrictlySorted : (xs : List String) → StrictlySorted (compact (sort xs))
compact-sort-StrictlySorted xs = compact-StrictlySorted (sort xs) (sort-Sorted xs)

-- On texts that are strictly sorted both do nothing.
pub sort-of-StrictlySorted : (xs : List String) → StrictlySorted xs → sort xs ≡ xs
unfolding sort insert
sort-of-StrictlySorted [] h = refl
sort-of-StrictlySorted (x ∷ []) h = refl
sort-of-StrictlySorted (x ∷ y ∷ ys) h =
    ap (insert x) (sort-of-StrictlySorted (y ∷ ys) h.1) ∙ rw (text_lt_asymm x y h.0)

pub compact-of-StrictlySorted : (xs : List String) → StrictlySorted xs → compact xs ≡ xs
unfolding compact keep_new
compact-of-StrictlySorted [] h = refl
compact-of-StrictlySorted (x ∷ []) h = refl
compact-of-StrictlySorted (x ∷ y ∷ ys) h =
    ap (keep_new x) (compact-of-StrictlySorted (y ∷ ys) h.1)
    ∙ elim (text_cases x y) [ inl (e, t) ↦ absurd (irrefl x y e h.0) | inr (_, f) ↦ rw f ]
  where
    irrefl : (x y : String) → x ≡ y → text_lt x y ≡ true → ⊥
    irrefl x y e t = ground (arith, text_lt_irrefl y)

-- Neither loses a text or makes one up.
contains-insert :
    (x : String) (xs : List String) (s : String)
    → contains (insert x xs) s ≡ (x == s || contains xs s)
unfolding insert
contains-insert x [] s = refl
contains-insert x (y ∷ ys) s = ground (arith, contains-insert x ys s)

contains-keep_new :
    (x : String) (xs : List String) (s : String)
    → contains (keep_new x xs) s ≡ (x == s || contains xs s)
unfolding keep_new
contains-keep_new x [] s = refl
contains-keep_new x (y ∷ ys) s = ground (arith, eq_iff x y)

contains-sort : (xs : List String) (s : String) → contains (sort xs) s ≡ contains xs s
unfolding sort
contains-sort [] s = refl
contains-sort (x ∷ xs) s =
    contains-insert x (sort xs) s ∙ ap (λ b. x == s || b) (contains-sort xs s)

contains-compact : (xs : List String) (s : String) → contains (compact xs) s ≡ contains xs s
unfolding compact
contains-compact [] s = refl
contains-compact (x ∷ xs) s =
    contains-keep_new x (compact xs) s ∙ ap (λ b. x == s || b) (contains-compact xs s)

pub contains-compact-sort :
    (xs : List String) (s : String) → contains (compact (sort xs)) s ≡ contains xs s
contains-compact-sort xs s = contains-compact (sort xs) s ∙ contains-sort xs s

length-keep_new : (x : String) (xs : List String) → length (keep_new x xs) ≤ suc (length xs)
unfolding keep_new
length-keep_new x [] = omega arith
length-keep_new x (y ∷ ys) = ground arith

pub length-compact-le : (xs : List String) → length (compact xs) ≤ length xs
unfolding compact
length-compact-le [] = omega arith
length-compact-le (x ∷ xs) = omega (arith, length-keep_new x (compact xs), length-compact-le xs)
