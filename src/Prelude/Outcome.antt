-- ===== src/Prelude/Outcome.antt =====
-- What a call of the program ends in: a value, an exception, or an abort.
use cs4500project.Prelude.Tests.{if◌then◌else◌}
use mathlib.Core.Path.{◌≡◌, refl}
use mathlib.Core.Bool.{Bool, true, false}
use mathlib.Core.Option.{Option, none, some}

-- `short_data` is `ShortSerializedDataException`, `assertion_failed` a failed `assert` or
-- `exit_if_not`, `bad_variant` the exception of `std::get`, and `out_of_range` that of `at`.
-- `undefined` is undefined behaviour: an index out of range, or the value of an empty optional
-- or null pointer.
pub data Fault : Type 0 where
  short_data assertion_failed bad_variant out_of_range undefined : Fault

pub data Run {ℓ} (A : Type ℓ) : Type ℓ where
  ok : A → Run A
  fault : Fault → Run A

infixl 5 ◌>>=◌ ◌>>◌
-- The first fault ends the call.
abbrev pub ◌>>=◌ {κ ℓ} : {X : Type κ} {Y : Type ℓ} (first : Run X) (next : X → Run Y) → Run Y
fault why >>= next = fault why
ok x >>= next = next x

abbrev pub ◌>>◌ {ℓ} : {B : Type ℓ} → Run (Unit {0}) → Run B → Run B
m >> k = m >>= λ _. k

-- `assert(b)`
abbrev pub assert : Bool → Run (Unit {0})
assert true = ok tt
assert false = fault assertion_failed

-- A read that is undefined behaviour where there is nothing to read.
abbrev pub require {ℓ} : {A : Type ℓ} → Option A → Run A
require none = fault undefined
require (some a) = ok a

-- A call that ends well has a first half that does.
pub >>=-ok {κ ℓ} :
    {X : Type κ} {Y : Type ℓ} {y : Y} (next : X → Run Y) (first : Run X)
    → (first >>= next) ≡ ok y
    → (x : X) × (next x ≡ ok y) × (first ≡ ok x)
>>=-ok next (fault why) e = cc
>>=-ok next (ok x) e = (x, e, refl)

-- A call that ends well does so with a value of the predicate.
abbrev pub Ensures {κ ℓ} : {X : Type κ} → (X → Type ℓ) → Run X → Type ℓ
Ensures P (fault why) = Unit
Ensures P (ok x) = P x

pub Ensures-bind {κ ℓ ι} :
    {X : Type κ} {Y : Type ℓ} (P : Y → Type ι) (m : Run X) (f : X → Run Y)
    → ((x : X) → Ensures P (f x))
    → Ensures P (m >>= f)
Ensures-bind P (fault why) f h = tt
Ensures-bind P (ok x) f h = h x

pub Ensures-if {κ ℓ} :
    {X : Type κ} (P : X → Type ℓ) (b : Bool) (x y : Run X)
    → Ensures P x
    → Ensures P y
    → Ensures P (if b then x else y)
Ensures-if P true x y h k = h
Ensures-if P false x y h k = k

pub Ensures-then {κ ℓ ι κ'} :
    {X : Type κ} {Y : Type ℓ} (P : X → Type κ') (Q : Y → Type ι) (m : Run X) (f : X → Run Y)
    → Ensures P m
    → ((x : X) → P x → Ensures Q (f x))
    → Ensures Q (m >>= f)
Ensures-then P Q (fault why) f h k = tt
Ensures-then P Q (ok x) f h k = k x h

pub ok_inj : {A : Type 0} {x y : A} → ok x ≡ ok y → x ≡ y
ok_inj e = cc
