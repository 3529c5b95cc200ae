-- ===== src/Common/Order.antt =====
-- Go's order on strings, sort.Strings, slices.IsSorted and slices.Compact.
pub mod Laws
use Prim.Native.Nat.{ℕ}
use Prim.Native.Char.{Char, code}
use Prim.Native.String.{String}
use mathlib.Core.Path.{◌≡◌, refl, ap, ap₂, ◌∙◌, sym}
use mathlib.Core.Logic.{◌⊎◌, ◌≢◌, inl, inr}
use mathlib.Core.Bool.{Bool, true, false, not, ◌&&◌}
use mathlib.Core.List.{List, [], ◌∷◌}
use native.Mathlib.Omega.{arith}
use text.Mathlib.Text.{◌==◌}
use text.Mathlib.TextEquality.{Char-path}
use syrinx.Common.Tests.{ltb, nat_eq, if◌then◌else◌, Bool-cases, text_cases}
use syrinx.Common.Lists.{All, length, contains}

-- Bytewise order: on UTF-8 it is the order of the code points.
unfoldable pub text_lt : String → String → Bool
text_lt String.[] String.[] = false
text_lt String.[] (String.◌∷◌ d t) = true
text_lt (String.◌∷◌ c s) String.[] = false
text_lt (String.◌∷◌ c s) (String.◌∷◌ d t) =
    let rest = text_lt s t in
    if ltb (code c) (code d) then true else if nat_eq (code c) (code d) then rest else false

pub text_lt_irrefl : (s : String) → text_lt s s ≡ false
unfolding text_lt
text_lt_irrefl String.[] = refl
text_lt_irrefl (String.◌∷◌ c s) = ground (arith, text_lt_irrefl s)

pub text_lt_trans : (s t u : String) → text_lt s t ≡ true → text_lt t u ≡ true → text_lt s u ≡ true
unfolding text_lt
text_lt_trans String.[] String.[] u h k = ground arith
text_lt_trans String.[] (String.◌∷◌ d t) String.[] h k = ground arith
text_lt_trans String.[] (String.◌∷◌ d t) (String.◌∷◌ e u) h k = refl
text_lt_trans (String.◌∷◌ c s) String.[] u h k = ground arith
text_lt_trans (String.◌∷◌ c s) (String.◌∷◌ d t) String.[] h k = ground arith
text_lt_trans (String.◌∷◌ c s) (String.◌∷◌ d t) (String.◌∷◌ e u) h k =
    ground (arith, text_lt_trans s t u)

-- Two texts neither of which is less are one.
pub text_lt_antisymm : (s t : String) → text_lt s t ≡ false → text_lt t s ≡ false → s ≡ t
unfolding text_lt
text_lt_antisymm String.[] String.[] h k = refl
text_lt_antisymm String.[] (String.◌∷◌ d t) h k = ground arith
text_lt_antisymm (String.◌∷◌ c s) String.[] h k = ground arith
text_lt_antisymm (String.◌∷◌ c s) (String.◌∷◌ d t) h k =
    ap₂ String.◌∷◌ (Char-path c d (ground arith))
      (text_lt_antisymm s t (ground arith) (ground arith))

pub text_lt_asymm : (s t : String) → text_lt s t ≡ true → text_lt t s ≡ false
text_lt_asymm s t h = elim (Bool-cases (text_lt t s)) [
  | inl k ↦ ground (arith, text_lt_irrefl s, text_lt_trans s t s h k)
  | inr k ↦ k
]

insert : String → List String → List String
insert x [] = x ∷ []
insert x (y ∷ ys) = let rest = insert x ys in if text_lt y x then y ∷ rest else x ∷ y ∷ ys

-- sort.Strings
unfoldable pub sort : List String → List String
unfolding insert text_lt
sort [] = []
sort (x ∷ xs) = insert x (sort xs)

-- slices.Compact: of equal neighbours the first is kept.
keep_new : String → List String → List String
keep_new x [] = x ∷ []
keep_new x (y ∷ ys) = if x == y then y ∷ ys else x ∷ y ∷ ys

unfoldable pub compact : List String → List String
unfolding keep_new
compact [] = []
compact (x ∷ xs) = keep_new x (compact xs)

-- slices.IsSorted
unfoldable pub is_sorted : List String → Bool
unfolding text_lt
is_sorted [] = true
is_sorted (x ∷ []) = true
is_sorted (x ∷ y ∷ ys) = not (text_lt y x) && is_sorted (y ∷ ys)

-- Each entry is less than the next.
abbrev pub StrictlySorted : List String → Type 0
StrictlySorted [] = Unit
StrictlySorted (x ∷ []) = Unit
StrictlySorted (x ∷ y ∷ ys) = (text_lt x y ≡ true) × StrictlySorted (y ∷ ys)

abbrev pub Sorted : List String → Type 0
Sorted [] = Unit
Sorted (x ∷ []) = Unit
Sorted (x ∷ y ∷ ys) = (text_lt y x ≡ false) × Sorted (y ∷ ys)
