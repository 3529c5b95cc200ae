-- ===== src/Common/Rows.antt =====
-- Tables with a key: what UPDATE and INSERT do to the row that a SELECT by the key returns.
use Prim.Native.String.{String}
use mathlib.Core.Path.{◌≡◌, refl, sym, ap, subst, ◌∙◌}
use mathlib.Core.Logic.{inl, inr}
use mathlib.Core.Bool.{Bool, false, ◌&&◌}
use mathlib.Core.Option.{some}
use mathlib.Core.List.{List, [], ◌∷◌, ◌++◌}
use native.Mathlib.Omega.{arith}
use text.Mathlib.Text.{◌==◌}
use text.Mathlib.TextEquality.{eq_iff}
use syrinx.Common.Tests.{if◌then◌else◌, Bool-cases, eq-false_of_ne, ne_of_eq-false}
use syrinx.Common.Lists.{any, find, update, All, All-append, find_lem}
use syrinx.Common.Outcome.{if-both}

module _ {ℓ} {A : Type ℓ} where
  some_inj : {a b : A} → some a ≡ some b → a ≡ b
  some_inj e = ground arith

  -- An UPDATE that leaves the selected row alone, and the test as it is, does not change the SELECT.
  pub find-update_other :
      (p q : A → Bool) (f : A → A) (xs : List A) {r : A}
      → ((a : A) → p (f a) ≡ p a)
      → find p xs ≡ some r
      → q r ≡ false
      → find p (update q f xs) ≡ some r
  find-update_other p q f [] keep e n = ground arith
  find-update_other p q f (x ∷ xs) {r} keep e n = elim (Bool-cases (p x)) [
    | inl t ↦
        let same : x ≡ r = some_inj (rw t at e) in
        let kept : q x ≡ false = ap q same ∙ n in rw (kept, t) (ap some same)
    | inr miss ↦
        let rest = find-update_other p q f xs keep (rw miss at e) n in
        elim (Bool-cases (q x)) [ inl t ↦ rw (t, keep x, miss) rest | inr e ↦ rw (e, miss) rest ]
  ]

  pub find-append :
      (p : A → Bool) (xs ys : List A) {r : A} → find p xs ≡ some r → find p (xs ++ ys) ≡ some r
  find-append p [] ys e = ground arith
  find-append p (x ∷ xs) ys {r} e = elim (Bool-cases (p x)) [
    | inl t ↦ rw t (rw t at e)
    | inr miss ↦ rw miss (find-append p xs ys (rw miss at e))
  ]

  All-unit : (xs : List A) → All (λ _. Unit {0}) xs
  All-unit [] = tt
  All-unit (x ∷ xs) = (tt, All-unit xs)

module _ {ℓ} {A : Type ℓ} (key : A → String) where
  abbrev pub Distinct : List A → Type 0
  Distinct [] = Unit
  Distinct (x ∷ xs) = All (λ y. (key y == key x) ≡ false) xs × Distinct xs

  pub update_none :
      (q : A → Bool) (f : A → A) (k : String) (xs : List A)
      → All (λ y. (key y == k) ≡ false) xs
      → update (λ y. key y == k && q y) f xs ≡ xs
  update_none q f k [] h = refl
  update_none q f k (x ∷ xs) h = ground (arith, update_none q f k xs h.1, h.0)

  All-key_update :
      (q : A → Bool) (f : A → A) (k : String) (xs : List A)
      → ((a : A) → key (f a) ≡ key a)
      → All (λ y. (key y == k) ≡ false) xs
      → All (λ y. (key y == k) ≡ false) (update q f xs)
  All-key_update q f k [] keep h = tt
  All-key_update q f k (x ∷ xs) keep h = elim (Bool-cases (q x)) [
    | inl t ↦ rw t (ap (λ s. s == k) (keep x) ∙ h.0, All-key_update q f k xs keep h.1)
    | inr e ↦ rw e (h.0, All-key_update q f k xs keep h.1)
  ]

  pub Distinct-update :
      (q : A → Bool) (f : A → A) (xs : List A)
      → ((a : A) → key (f a) ≡ key a)
      → Distinct xs
      → Distinct (update q f xs)
  Distinct-update q f [] keep d = tt
  Distinct-update q f (x ∷ xs) keep d = elim (Bool-cases (q x)) [
    | inl t ↦
        rw (t, keep x) (All-key_update q f (key x) xs keep d.0, Distinct-update q f xs keep d.1)
    | inr e ↦ rw e (All-key_update q f (key x) xs keep d.0, Distinct-update q f xs keep d.1)
  ]

  -- One row's UPDATE by its key: the other rows keep their properties, that row needs a new proof.
  pub All-update_found {κ} :
      (P : A → Type κ) (q : A → Bool) (f : A → A) (k : String) (xs : List A) {a : A}
      → Distinct xs
      → All P xs
      → find (λ y. key y == k) xs ≡ some a
      → P (f a)
      → All P (update (λ y. key y == key a && q y) f xs)
  All-update_found P q f k [] d h e pf = tt
  All-update_found P q f k (x ∷ xs) {a} d h e pf = elim (Bool-cases (key x == k)) [
    | inl t ↦
        let same : x ≡ a = some_inj (rw t at e) in
        let head : P (if key x == key a && q x then f x else x) =
          subst (λ b. P (if key x == key b && q x then f x else x)) same
            (if-both P (key x == key x && q x) (subst (λ b. P (f b)) (sym same) pf) h.0) in
        (
          head,
          subst (λ b. All P (update (λ y. key y == key b && q y) f xs)) same
              (subst (λ ys. All P ys) (sym (update_none q f (key x) xs d.0)) h.1),
        )
    | inr miss ↦
        let found : (key a ≡ k) =
          (eq_iff (key a) k).0
            (find_lem (λ _. Unit {0}) (λ y. key y == k) xs (All-unit xs) (rw miss at e)).1 in
        let other : (key x == key a) ≡ false = rw found miss in
        (rw other h.0, All-update_found P q f k xs d.1 h.1 (rw miss at e) pf)
  ]

  pub Distinct-append :
      (xs : List A) (a : A)
      → Distinct xs
      → any (λ y. key y == key a) xs ≡ false
      → Distinct (xs ++ a ∷ [])
  Distinct-append [] a d n = (tt, tt)
  Distinct-append (x ∷ xs) a d n =
      let head : (key x == key a) ≡ false = ground arith in
      (
        All-append _ xs (a ∷ []) d.0
            (eq-false_of_ne _ _ (λ e. ne_of_eq-false _ _ head (sym e)), tt),
        Distinct-append xs a d.1 (ground arith),
      )
