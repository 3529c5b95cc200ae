-- ===== src/Common/Lists.antt =====
-- Lists under Boolean tests: what SQL's WHERE, UPDATE and DELETE and Go's `slices` do.
use Prim.Native.Nat.{ℕ, suc, ◌+◌}
use Prim.Native.String.{String}
use mathlib.Core.Path.{refl, ◌≡◌}
use mathlib.Core.Logic.{inl, inr}
use mathlib.Core.Bool.{not, Bool, true, false, ◌&&◌, ◌||◌}
use mathlib.Core.Option.{Option, none, some}
use mathlib.Core.List.{List, [], ◌∷◌, ◌++◌}
use native.Mathlib.Omega.{arith}
use text.Mathlib.Text.{◌==◌}
use syrinx.Common.Tests.{if◌then◌else◌, Bool-cases}

module _ {ℓ} {A : Type ℓ} where
  abbrev pub length : List A → ℕ
  length [] = 0
  length (x ∷ xs) = suc (length xs)

  abbrev pub any : (A → Bool) → List A → Bool
  any p [] = false
  any p (x ∷ xs) = p x || any p xs

  abbrev pub all : (A → Bool) → List A → Bool
  all p [] = true
  all p (x ∷ xs) = p x && all p xs

  -- SELECT … WHERE p, its first row
  abbrev pub find : (A → Bool) → List A → Option A
  find p [] = none
  find p (x ∷ xs) = if p x then some x else find p xs

  -- SELECT … WHERE p; also DELETE … WHERE not p
  abbrev pub select : (A → Bool) → List A → List A
  select p [] = []
  select p (x ∷ xs) = let rest = select p xs in if p x then x ∷ rest else rest

  -- UPDATE … SET f WHERE p
  abbrev pub update : (A → Bool) → (A → A) → List A → List A
  update p f [] = []
  update p f (x ∷ xs) = (if p x then f x else x) ∷ update p f xs

-- slices.Contains
abbrev pub contains : List String → String → Bool
contains xs s = any (λ x. x == s) xs

module _ {ℓ κ} {A : Type ℓ} (P : A → Type κ) where
  abbrev pub All : List A → Type κ
  All [] = Unit
  All (x ∷ xs) = P x × All xs

module _ {ℓ} {A : Type ℓ} where
  pub length-append : (xs ys : List A) → length (xs ++ ys) ≡ length xs + length ys
  length-append [] ys = omega arith
  length-append (x ∷ xs) ys = omega (arith, length-append xs ys)

  pub All-append {κ} : (P : A → Type κ) (xs ys : List A) → All P xs → All P ys → All P (xs ++ ys)
  All-append P [] ys h k = k
  All-append P (x ∷ xs) ys h k = (h.0, All-append P xs ys h.1 k)

  pub select-select :
      (p q : A → Bool) (xs : List A)
      → ((a : A) → p a ≡ true → q a ≡ true)
      → select p (select q xs) ≡ select p xs
  select-select p q [] within = refl
  select-select p q (x ∷ xs) within =
      let rest = select-select p q xs within in
      elim (Bool-cases (p x)) [
        | inl t ↦ let u = within x t in rw (u, t, rest) refl
        | inr f ↦ elim (Bool-cases (q x)) [ inl u ↦ rw (u, f) rest | inr v ↦ rw (v, f) rest ]
      ]

  -- A DELETE leaves no row that its test takes.
  pub select_none :
      (p : A → Bool) (xs : List A) → All (λ a. p a ≡ false) (select (λ a. not (p a)) xs)
  select_none p [] = tt
  select_none p (x ∷ xs) =
      let rest = select_none p xs in
      elim (Bool-cases (p x)) [ inl t ↦ rw t rest | inr f ↦ rw f (f, rest) ]

  pub find_test : (p : A → Bool) (xs : List A) {a : A} → find p xs ≡ some a → p a ≡ true
  find_test p [] e = ground arith
  find_test p (x ∷ xs) {a} e = elim (Bool-cases (p x)) [
    | inl t ↦ ground (arith)
    | inr f ↦ find_test p xs (ground arith)
  ]

  -- What `find` returns passes the test and every property of the rows.
  pub find_lem {κ} :
      (P : A → Type κ) (p : A → Bool) (xs : List A) {a : A}
      → All P xs
      → find p xs ≡ some a
      → P a × (p a ≡ true)
  find_lem P p [] h e = ground arith
  find_lem P p (x ∷ xs) {a} h e = elim (Bool-cases (p x)) [
    | inl t ↦ ground (arith)
    | inr f ↦ find_lem P p xs h.1 (ground arith)
  ]

  pub All-update {κ} :
      (P : A → Type κ) (p : A → Bool) (f : A → A) (xs : List A)
      → ((a : A) → p a ≡ true → P a → P (f a))
      → All P xs
      → All P (update p f xs)
  All-update P p f [] g h = tt
  All-update P p f (x ∷ xs) g h = elim (Bool-cases (p x)) [
    | inl t ↦ rw t (g x t h.0, All-update P p f xs g h.1)
    | inr e ↦ rw e (h.0, All-update P p f xs g h.1)
  ]

  pub All-select {κ} :
      (P : A → Type κ) (p : A → Bool) (xs : List A) → All P xs → All P (select p xs)
  All-select P p [] h = tt
  All-select P p (x ∷ xs) h = elim (Bool-cases (p x)) [
    | inl t ↦ rw t (h.0, All-select P p xs h.1)
    | inr e ↦ rw e (All-select P p xs h.1)
  ]

  pub All-map {κ} : (P Q : A → Type κ) (xs : List A) → ((a : A) → P a → Q a) → All P xs → All Q xs
  All-map P Q [] f h = tt
  All-map P Q (x ∷ xs) f h = (f x h.0, All-map P Q xs f h.1)
