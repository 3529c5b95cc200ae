-- ===== src/Permissions/Spelling.antt =====
-- Reading and writing the permission sets of src/backend/admin.go.
use syrinx.Common.{
  String, ◌≡◌, refl, sym, ◌∙◌, inl, inr, Bool, true, false, not, ◌==◌, eq_iff, List, [], ◌∷◌,
  Result, ok, ok_inj, err, Failure, arith, All, contains, is_empty, has, text_lt, sort, compact,
  split, join, join-split, split-join, StrictlySorted, sort-of-StrictlySorted,
  compact-of-StrictlySorted, compact-sort-StrictlySorted, contains-compact-sort, join-ne_empty,
  eq_refl, Bool-cases, Option, none, some, ◌>>◌, >>-eq-ok, if◌then◌else◌, subst,
}
use syrinx.Permissions.{
  admin_permissions, comma, out_of_order, check_perms, parse_permission_set, format_permission_set,
}

-- What a list of texts holds has every property that its entries have.
contains-All {ℓ} :
    (P : String → Type ℓ) (xs : List String) (s : String) → All P xs → contains xs s ≡ true → P s
contains-All P [] s h e = ground arith
contains-All P (x ∷ xs) s h e = elim (Bool-cases (x == s)) [
  | inl t ↦ subst P ((eq_iff x s).0 t) h.0
  | inr f ↦ contains-All P xs s h.1 (ground arith)
]

abbrev IsName : String → Type 0
IsName p = (has comma p ≡ false) × (is_empty p ≡ false)

names : All IsName admin_permissions
names = ground arith

abbrev pub Known : List String → Type 0
Known ps = All (λ p. contains admin_permissions p ≡ true) ps

Known-names : (ps : List String) → Known ps → All (λ p. has comma p ≡ false) ps
Known-names [] h = tt
Known-names (p ∷ ps) h = ((contains-All IsName admin_permissions p names h.0).0, Known-names ps h.1)

abbrev InOrder : Option String → List String → Type 0
InOrder none [] = Unit
InOrder none (p ∷ ps) = Unit
InOrder (some q) [] = Unit
InOrder (some q) (p ∷ ps) = text_lt q p ≡ true

check_perms_complete :
    (previous : Option String) (ps : List String)
    → Known ps
    → StrictlySorted ps
    → InOrder previous ps
    → check_perms previous ps ≡ ok tt
unfolding check_perms out_of_order
check_perms_complete previous [] k s o = refl
check_perms_complete none (p ∷ []) k s o = ground arith
check_perms_complete (some q) (p ∷ []) k s o = ground arith
check_perms_complete none (p ∷ r ∷ ps) k s o =
    ground (arith, check_perms_complete (some p) (r ∷ ps) k.1 s.1 s.0)
check_perms_complete (some q) (p ∷ r ∷ ps) k s o =
    ground (arith, check_perms_complete (some p) (r ∷ ps) k.1 s.1 s.0)

both_pass :
    (b c : Bool) (r : Result (Unit {0})) (e f : Failure)
    → (if not b then err e else if c then err f else r) ≡ ok tt
    → (b ≡ true) × (c ≡ false) × (r ≡ ok tt)
both_pass b c r e f h = ground arith

check_perms_step :
    (previous : Option String) (p : String) (ps : List String)
    → check_perms previous (p ∷ ps) ≡ ok tt
    → (contains admin_permissions p ≡ true)
      × (out_of_order previous p ≡ false)
      × (check_perms (some p) ps ≡ ok tt)
unfolding check_perms
check_perms_step previous p ps h =
    both_pass (contains admin_permissions p) (out_of_order previous p) (check_perms (some p) ps) _ _
      h

InOrder-of :
    (previous : Option String) (p : String) (ps : List String)
    → out_of_order previous p ≡ false
    → InOrder previous (p ∷ ps)
unfolding out_of_order
InOrder-of none p ps h = tt
InOrder-of (some q) p ps h = ground arith

StrictlySorted-cons :
    (p : String) (ps : List String)
    → StrictlySorted ps
    → InOrder (some p) ps
    → StrictlySorted (p ∷ ps)
StrictlySorted-cons p [] s o = tt
StrictlySorted-cons p (r ∷ ps) s o = (o, s)

InOrder-nil : (previous : Option String) → InOrder previous []
InOrder-nil none = tt
InOrder-nil (some q) = tt

check_perms_sound :
    (previous : Option String) (ps : List String)
    → check_perms previous ps ≡ ok tt
    → Known ps × StrictlySorted ps × InOrder previous ps
check_perms_sound previous [] h = (tt, tt, InOrder-nil previous)
check_perms_sound previous (p ∷ ps) h =
    let (known, order, rest) = check_perms_step previous p ps h in
    let (k, s, o) = check_perms_sound (some p) ps rest in
    ((known, k), StrictlySorted-cons p ps s o, InOrder-of previous p ps order)

StrictlySorted-format :
    (ps : List String) → StrictlySorted ps → format_permission_set ps ≡ join comma ps
unfolding format_permission_set
StrictlySorted-format ps h = rw (sort-of-StrictlySorted ps h, compact-of-StrictlySorted ps h)

split_checked :
    (body : String) (ps : List String)
    → (check_perms none (split comma body) >> ok (split comma body)) ≡ ok ps
    → Known ps × StrictlySorted ps × (format_permission_set ps ≡ body)
split_checked body ps h =
    let (checked, e) = >>-eq-ok (check_perms none (split comma body)) (ok (split comma body)) h in
    let (k, s, _) = check_perms_sound none (split comma body) checked in
    subst (λ qs. Known qs × StrictlySorted qs × (format_permission_set qs ≡ body)) (ok_inj e)
      (k, s, StrictlySorted-format (split comma body) s ∙ join-split comma body)

empty_set :
    (ps : List String)
    → ok [] ≡ ok ps
    → Known ps × StrictlySorted ps × (format_permission_set ps ≡ String.[])
unfolding format_permission_set join sort compact
empty_set ps h =
    subst (λ qs. Known qs × StrictlySorted qs × (format_permission_set qs ≡ String.[])) (ok_inj h)
      (tt, tt, refl)

-- A set that is read holds known permissions in strict order, and writing it gives the text back.
pub format_permission_set-parse :
    (body : String) (ps : List String)
    → parse_permission_set body ≡ ok ps
    → Known ps × StrictlySorted ps × (format_permission_set ps ≡ body)
unfolding parse_permission_set
format_permission_set-parse String.[] ps h = empty_set ps h
format_permission_set-parse (String.◌∷◌ c s) ps h = split_checked (String.◌∷◌ c s) ps h

All-of_contains {ℓ} :
    (P : String → Type ℓ) (xs : List String)
    → ((s : String) → contains xs s ≡ true → P s)
    → All P xs
All-of_contains P [] f = tt
All-of_contains P (x ∷ xs) f =
    (f x (ground (arith, eq_refl x)), All-of_contains P xs (λ s h. f s (ground arith)))

Known-compact-sort : (ps : List String) → Known ps → Known (compact (sort ps))
Known-compact-sort ps k =
    All-of_contains (λ p. contains admin_permissions p ≡ true) (compact (sort ps))
      (λ s h.
        contains-All (λ p. contains admin_permissions p ≡ true) ps s k
          (sym (contains-compact-sort ps s) ∙ h))

parse_join :
    (ps : List String) → Known ps → StrictlySorted ps → parse_permission_set (join comma ps) ≡ ok ps
unfolding parse_permission_set join
parse_join [] k s = refl
parse_join (p ∷ ps) k s =
    let full = join-ne_empty comma p ps (contains-All IsName admin_permissions p names k.0).1 in
    let pieces = split-join comma p ps (Known-names (p ∷ ps) k) in
    rw (full, pieces, check_perms_complete none (p ∷ ps) k s tt)

-- Known permissions in any order, with repetitions, are written so that they are read back in
-- strict order, each once.
pub parse_permission_set-format :
    (ps : List String)
    → Known ps
    → (parse_permission_set (format_permission_set ps) ≡ ok (compact (sort ps)))
      × StrictlySorted (compact (sort ps))
      × ((p : String) → contains (compact (sort ps)) p ≡ contains ps p)
unfolding format_permission_set
parse_permission_set-format ps k =
    let strict = compact-sort-StrictlySorted ps in
    (
      parse_join (compact (sort ps)) (Known-compact-sort ps k) strict,
      strict,
      contains-compact-sort ps,
    )
