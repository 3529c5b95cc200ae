-- ===== src/Common/Chars.antt =====
-- Texts walked by characters: Go walks bytes, and every separator it looks for is one ASCII byte.
use Prim.Native.Char.{Char, code}
use Prim.Native.String.{String}
use Prim.Native.String
use Prim.Native.String.append
use mathlib.Core.Path.{◌≡◌, refl, sym, ap, ◌∙◌}
use mathlib.Core.Bool.{Bool, true, false, ◌&&◌, ◌||◌}
use mathlib.Core.Option.{Option, none, some}
use native.Mathlib.Omega.{arith}
use text.Mathlib.TextEquality.{Char-path}
use syrinx.Common.Tests.{nat_eq, leb, if◌then◌else◌, Bool-cases, Option-cases}
use mathlib.Core.Logic.{inl, inr}

abbrev pub text_append : String → String → String
text_append s t = String.◌++◌ s t

abbrev pub empty_text : String
empty_text = String.[]

abbrev pub char_eq : Char → Char → Bool
char_eq c d = nat_eq (code c) (code d)

pub char_eq→eq : (c d : Char) → char_eq c d ≡ true → c ≡ d
char_eq→eq c d h = Char-path c d (ground arith)

pub char_eq_refl : (c : Char) → char_eq c c ≡ true
char_eq_refl c = ground arith

-- Does the text hold the character?
abbrev pub has : Char → String → Bool
has c String.[] = false
has c (String.◌∷◌ d s) = char_eq d c || has c s

abbrev pub is_empty : String → Bool
is_empty String.[] = true
is_empty (String.◌∷◌ c s) = false

-- `s[:i], s[i+1:]` at `i := strings.LastIndex(s, c)`, and none where `i < 0`.
found_later : Char → Char → String → Option (String × String) → Option (String × String)
found_later c d s (some (a, b)) = some (String.◌∷◌ d a, b)
found_later c d s none = if char_eq d c then some (String.[], s) else none

unfoldable pub split_last : Char → String → Option (String × String)
unfolding found_later
split_last c String.[] = none
split_last c (String.◌∷◌ d s) = found_later c d s (split_last c s)

-- strings.Cut(s, c): around the first `c`.
unfoldable pub cut : Char → String → Option (String × String)
cut c String.[] = none
cut c (String.◌∷◌ d s) =
    let rest = cut c s in
    if char_eq d c
    then some (String.[], s)
    else elim rest [ none ↦ none | some (a, b) ↦ some (String.◌∷◌ d a, b) ]

-- unicode.IsSpace
is_space : Char → Bool
is_space c =
    let n = code c in
    (leb 9 n && leb n 13)
    || nat_eq n 32
    || nat_eq n 0x85
    || nat_eq n 0xa0
    || nat_eq n 0x1680
    || (leb 0x2000 n && leb n 0x200a)
    || nat_eq n 0x2028
    || nat_eq n 0x2029
    || nat_eq n 0x202f
    || nat_eq n 0x205f
    || nat_eq n 0x3000

trim_left : String → String
trim_left String.[] = String.[]
trim_left (String.◌∷◌ c s) = let rest = trim_left s in if is_space c then rest else String.◌∷◌ c s

trim_right : String → String
trim_right String.[] = String.[]
trim_right (String.◌∷◌ c s) =
    let rest = trim_right s in if is_empty rest && is_space c then String.[] else String.◌∷◌ c rest

-- strings.TrimSpace
unfoldable pub trim_space : String → String
unfolding trim_left trim_right is_space
trim_space s = trim_right (trim_left s)

pub split_last-none : (c : Char) (s : String) → has c s ≡ false → split_last c s ≡ none
unfolding split_last
split_last-none c String.[] h = refl
split_last-none c (String.◌∷◌ d s) h =
    rw (split_last-none c s (ground arith), found_later) (ground arith)

-- The text after the last separator holds none.
pub split_last-append :
    (c : Char) (a b : String)
    → has c b ≡ false
    → split_last c (text_append a (String.◌∷◌ c b)) ≡ some (a, b)
unfolding split_last
split_last-append c String.[] b h =
    rw (append.nil (String.◌∷◌ c b), split_last-none c b h, found_later, char_eq_refl c)
split_last-append c (String.◌∷◌ d a) b h =
    rw (append.cons d a (String.◌∷◌ c b), split_last-append c a b h, found_later)

pub has-of_split_last-none : (c : Char) (s : String) → split_last c s ≡ none → has c s ≡ false
unfolding split_last
has-of_split_last-none c String.[] h = refl
has-of_split_last-none c (String.◌∷◌ d s) h = elim (Option-cases (split_last c s)) [
  | inl e ↦ ground (arith, e, has-of_split_last-none c s e)
  | inr (p, e) ↦ ground (arith, e)
]

pub some_pair_inj {ℓ} :
    {A B : Type ℓ} {a a' : A} {b b' : B}
    → ◌≡◌ {A = Option (A × B)} (some (a, b)) (some (a', b'))
    → (a ≡ a') × (b ≡ b')
some_pair_inj h = ground arith

found_here :
    (c d : Char) (s a b : String)
    → char_eq d c ≡ true
    → has c s ≡ false
    → (String.[] ≡ a) × (s ≡ b)
    → (text_append a (String.◌∷◌ c b) ≡ String.◌∷◌ d s) × (has c b ≡ false)
found_here c d s a b t none_left (ea, eb) =
    rw (← ea, ← eb)
      (append.nil (String.◌∷◌ c s) ∙ ap (λ x. String.◌∷◌ x s) (sym (char_eq→eq d c t)), none_left)

-- What the split returns spells the text, and its right half holds no separator.
pub split_last_sound :
    (c : Char) (s a b : String)
    → split_last c s ≡ some (a, b)
    → (text_append a (String.◌∷◌ c b) ≡ s) × (has c b ≡ false)
unfolding split_last
split_last_sound c String.[] a b h = ground arith
split_last_sound c (String.◌∷◌ d s) a b h = elim (Option-cases (split_last c s)) [
  | inl e ↦
      let found : found_later c d s none ≡ some (a, b) = rw e at h in
      elim (Bool-cases (char_eq d c)) [
        | inl t ↦
            found_here c d s a b t (has-of_split_last-none c s e)
              (some_pair_inj (rw (t, found_later) at found))
        | inr f ↦ ground (arith, e)
      ]
  | inr ((a', b'), e) ↦
      let ih = split_last_sound c s a' b' e in
      let found : found_later c d s (some (a', b')) ≡ some (a, b) = rw e at h in
      let (ea, eb) = some_pair_inj found in
      rw (← ea, ← eb) (append.cons d a' (String.◌∷◌ c b') ∙ ap (String.◌∷◌ d) ih.0, ih.1)
]
