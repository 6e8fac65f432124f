-- ===== src/Prelude/Results.antt =====
-- The exceptions that the program's own code can raise, and the chaining of calls.

use mathlib.Core.Path.{◌≡◌, refl, ap}
use mathlib.Core.Logic.{◌⊎◌, inl, inr}
use mathlib.Core.Bool.{Bool, true, false}
use ixp_irc.Prelude.Tests.{if◌then◌else◌}

pub data Exception : Type 0 where
  type_error value_error index_error key_error attribute_error stop_iteration struct_error
        socket_error database_error recursion_error zero_division_error :
      Exception

pub data Result {ℓ} (A : Type ℓ) : Type ℓ where
  ok : A → Result A
  raise : Exception → Result A

infixl 5 ◌>>=◌
abbrev pub ◌>>=◌ {ℓ κ} : {A : Type ℓ} {B : Type κ} → Result A → (A → Result B) → Result B
ok a >>= f = f a
raise x >>= f = raise x

pub if_ok {ℓ} :
    {A : Type ℓ} (b : Bool) (x y : A) → (if b then ok x else ok y) ≡ ok (if b then x else y)
if_ok true x y = refl
if_ok false x y = refl

pub ok-injective {ℓ} : {A : Type ℓ} {x y : A} → ok x ≡ ok y → x ≡ y
ok-injective p = cc

-- What a chain that succeeds went through.
pub bind_ok {ℓ κ} :
    {A : Type ℓ} {B : Type κ} (r : Result A) (f : A → Result B) {b : B}
    → (r >>= f) ≡ ok b
    → (a : A) × (r ≡ ok a) × (f a ≡ ok b)
bind_ok (ok a) f h = (a, refl, h)
bind_ok (raise x) f h = cc

pub bind_of {ℓ κ} :
    {A : Type ℓ} {B : Type κ} {r : Result A} (f : A → Result B) {a : A} → r ≡ ok a → (r >>= f) ≡ f a
bind_of f e = ap (λ z. z >>= f) e

pub bind_raise {ℓ κ} :
    {A : Type ℓ} {B : Type κ} {r : Result A} (f : A → Result B) {x : Exception}
    → r ≡ raise x
    → (r >>= f) ≡ raise x
bind_raise f e = ap (λ z. z >>= f) e

pub Result-cases {ℓ} :
    {A : Type ℓ} (r : Result A) → ((a : A) × (r ≡ ok a)) ⊎ ((x : Exception) × (r ≡ raise x))
Result-cases (ok a) = inl (a, refl)
Result-cases (raise x) = inr (x, refl)

pub not-ok_raise {ℓ} : {A : Type ℓ} {x : Exception} {a : A} → raise x ≡ ok a → ⊥
not-ok_raise h = cc
