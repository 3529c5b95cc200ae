-- ===== src/Common/Join.antt =====
-- strings.Split and strings.Join at one character.
use Prim.Native.Char.{Char}
use Prim.Native.String.{String}
use Prim.Native.String.append
use mathlib.Core.Path.{◌≡◌, refl, ap, ap₂, ◌∙◌, sym}
use mathlib.Core.Logic.{inl, inr}
use mathlib.Core.Bool.{false}
use mathlib.Core.List.{List, [], ◌∷◌}
use native.Mathlib.Omega.{arith}
use syrinx.Common.Tests.{if◌then◌else◌, Bool-cases}
use syrinx.Common.Lists.{All}
use syrinx.Common.Chars.{has, char_eq, char_eq→eq, char_eq_refl, text_append, is_empty}

-- Put a character in front of the first piece.
extend : Char → List String → List String
extend d [] = String.◌∷◌ d String.[] ∷ []
extend d (x ∷ xs) = String.◌∷◌ d x ∷ xs

unfoldable pub split : Char → String → List String
unfolding extend
split c String.[] = String.[] ∷ []
split c (String.◌∷◌ d s) =
    let rest = split c s in if char_eq d c then String.[] ∷ rest else extend d rest

unfoldable pub join : Char → List String → String
join c [] = String.[]
join c (x ∷ []) = x
join c (x ∷ y ∷ ys) = text_append x (String.◌∷◌ c (join c (y ∷ ys)))

join-extend :
    (c d : Char) (x : String) (xs : List String)
    → join c (extend d (x ∷ xs)) ≡ String.◌∷◌ d (join c (x ∷ xs))
unfolding join extend
join-extend c d x [] = refl
join-extend c d x (y ∷ ys) = append.cons d x (String.◌∷◌ c (join c (y ∷ ys)))

split-cons : (c : Char) (s : String) → (x : String) × (xs : List String) × (split c s ≡ x ∷ xs)
unfolding split extend
split-cons c String.[] = (String.[], [], refl)
split-cons c (String.◌∷◌ d s) = elim (Bool-cases (char_eq d c)) [
  | inl t ↦ (String.[], split c s, rw t)
  | inr f ↦ let (x, xs, e) = split-cons c s in (String.◌∷◌ d x, xs, rw (f, e))
]

join-empty :
    (c : Char) (x : String) (xs : List String)
    → join c (String.[] ∷ x ∷ xs) ≡ String.◌∷◌ c (join c (x ∷ xs))
unfolding join
join-empty c x xs = append.nil (String.◌∷◌ c (join c (x ∷ xs)))

-- The pieces joined again spell the text.
pub join-split : (c : Char) (s : String) → join c (split c s) ≡ s
unfolding split
join-split c String.[] = unfold join in refl
join-split c (String.◌∷◌ d s) =
    let (x, xs, e) = split-cons c s in
    let ih : join c (x ∷ xs) ≡ s = rw e at (join-split c s) in
    elim (Bool-cases (char_eq d c)) [
      | inl t ↦ rw (t, e) (join-empty c x xs ∙ ap₂ String.◌∷◌ (sym (char_eq→eq d c t)) ih)
      | inr f ↦ rw (f, e) (join-extend c d x xs ∙ ap (String.◌∷◌ d) ih)
    ]

split-append :
    (c : Char) (x s : String)
    → has c x ≡ false
    → split c (text_append x (String.◌∷◌ c s)) ≡ x ∷ split c s
unfolding split extend
split-append c String.[] s h = rw (append.nil (String.◌∷◌ c s), char_eq_refl c)
split-append c (String.◌∷◌ d x) s h =
    let f : char_eq d c ≡ false = ground arith in
    rw (append.cons d x (String.◌∷◌ c s), f, split-append c x s (ground arith))

split-one : (c : Char) (x : String) → has c x ≡ false → split c x ≡ x ∷ []
unfolding split extend
split-one c String.[] h = refl
split-one c (String.◌∷◌ d x) h =
    let f : char_eq d c ≡ false = ground arith in rw (f, split-one c x (ground arith))

-- Pieces without the separator, one at least, are what their join splits into.
pub split-join :
    (c : Char) (x : String) (xs : List String)
    → All (λ p. has c p ≡ false) (x ∷ xs)
    → split c (join c (x ∷ xs)) ≡ x ∷ xs
unfolding join
split-join c x [] h = split-one c x h.0
split-join c x (y ∷ ys) h =
    split-append c x (join c (y ∷ ys)) h.0 ∙ ap (λ r. x ∷ r) (split-join c y ys h.1)

-- Texts of which the first is not empty have a join that is not empty.
pub join-ne_empty :
    (c : Char) (x : String) (xs : List String)
    → is_empty x ≡ false
    → is_empty (join c (x ∷ xs)) ≡ false
unfolding join
join-ne_empty c String.[] xs h = ground arith
join-ne_empty c (String.◌∷◌ d s) [] h = refl
join-ne_empty c (String.◌∷◌ d s) (y ∷ ys) h =
    ap is_empty (append.cons d s (String.◌∷◌ c (join c (y ∷ ys))))
