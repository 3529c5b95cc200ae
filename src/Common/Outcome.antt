-- ===== src/Common/Outcome.antt =====
-- Go's `(value, error)`: a value, a refusal with its HTTP status and reason code, or an internal
-- error, which a handler answers with a 500.
use Prim.Native.Nat.{ℕ}
use Prim.Native.String.{String}
use mathlib.Core.Path.{◌≡◌, refl, ap}
use mathlib.Core.Option.{Option, none, some}
use mathlib.Core.Bool.{Bool, true, false}
use syrinx.Common.Tests.{if◌then◌else◌}
use mathlib.Core.List.{List, [], ◌∷◌}
use syrinx.Common.Lists.{All}
use native.Mathlib.Omega.{arith}

pub data Failure : Type 0 where
  refused : ℕ → String → Failure
  failed : String → Failure

pub data Result {ℓ} (A : Type ℓ) : Type ℓ where
  err : Failure → Result A
  ok : A → Result A

-- `if bad { return err }`
abbrev pub refuse_if : Bool → Failure → Result (Unit {0})
refuse_if false failure = ok tt
refuse_if true failure = err failure

infixl 5 ◌>>=◌ ◌>>◌
-- `x, err := …; if err != nil { return err }`
abbrev pub ◌>>=◌ {ℓ κ} : {A : Type ℓ} {B : Type κ} (m : Result A) (rest : A → Result B) → Result B
err failure >>= rest = err failure
ok value >>= rest = rest value

abbrev pub or_fail {ℓ} : {A : Type ℓ} → Option A → Failure → Result A
or_fail none e = err e
or_fail (some a) e = ok a

-- The same for a call that returns an error alone
abbrev pub ◌>>◌ {ℓ} : {B : Type ℓ} (check : Result (Unit {0})) (rest : Result B) → Result B
check >> rest = check >>= λ unit. rest

-- A loop that returns at its first failure.
abbrev pub each {ℓ} : {A : Type ℓ} → (A → Result (Unit {0})) → List A → Result (Unit {0})
each check [] = ok tt
each check (x ∷ xs) = let rest = each check xs in check x >> rest

-- Inversion of a successful bind.
pub >>=-eq-ok {ℓ κ} :
    {A : Type ℓ} {B : Type κ} (m : Result A) (rest : A → Result B) {b : B}
    → (m >>= rest) ≡ ok b
    → (value : A) × (m ≡ ok value) × (rest value ≡ ok b)
>>=-eq-ok (err failure) rest h = ground arith
>>=-eq-ok (ok value) rest h = (value, refl, h)

pub >>-eq-ok {ℓ} :
    {B : Type ℓ} (m : Result (Unit {0})) (k : Result B) {b : B}
    → (m >> k) ≡ ok b
    → (m ≡ ok tt) × (k ≡ ok b)
>>-eq-ok (ok tt) k h = (refl, h)
>>-eq-ok (err e) k h = ground arith

pub refuse_if-ok : (b : Bool) (e : Failure) → refuse_if b e ≡ ok tt → b ≡ false
refuse_if-ok true e h = ground arith
refuse_if-ok false e h = refl

pub ok_inj {ℓ} : {A : Type ℓ} {a b : A} → ok a ≡ ok b → a ≡ b
ok_inj h = ground arith

pub each-All {ℓ} :
    {A : Type ℓ} (check : A → Result (Unit {0})) (xs : List A)
    → each check xs ≡ ok tt
    → All (λ x. check x ≡ ok tt) xs
each-All check [] h = tt
each-All check (x ∷ xs) h =
    let (now, rest) = >>-eq-ok (check x) (each check xs) h in (now, each-All check xs rest)

pub ok_pair_inj {ℓ κ} :
    {A : Type ℓ} {B : Type κ} {a a' : A} {b b' : B}
    → ◌≡◌ {A = Result (A × B)} (ok (a, b)) (ok (a', b'))
    → (a ≡ a') × (b ≡ b')
ok_pair_inj h = ground arith

pub err-ok {ℓ κ} : {A : Type ℓ} {T : Type κ} {e : Failure} {a : A} → err e ≡ ok a → T
err-ok h = ground arith

-- A success of an `if` is one of a branch.
pub if_ok {ℓ κ} :
    {A : Type ℓ} {T : Type κ} (b : Bool) {x y : Result A} {a : A}
    → (b ≡ true → x ≡ ok a → T)
    → (b ≡ false → y ≡ ok a → T)
    → (if b then x else y) ≡ ok a
    → T
if_ok true f g h = f refl h
if_ok false f g h = g refl h

pub if-both {ℓ κ} :
    {A : Type ℓ} (P : A → Type κ) (b : Bool) {x y : A} → P x → P y → P (if b then x else y)
if-both P true p q = p
if-both P false p q = q

pub or_fail-some {ℓ} :
    {A : Type ℓ} {o : Option A} {a : A} (e : Failure) → or_fail o e ≡ ok a → o ≡ some a
or_fail-some {o = none} e h = err-ok h
or_fail-some {o = some x} e h = ap some (ok_inj h)
