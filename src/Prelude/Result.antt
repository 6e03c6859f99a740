-- ===== src/Prelude/Result.antt =====
-- What a call of the TypeScript code comes to: a value, or the exception that it throws.
use Prim.Native.String.{String}
use lend_core.Prelude.{◌≡◌, refl, Option, none, some, Bool, true, false}

pub data Error : Type 0 where
  -- `BigNumber.div` by zero
  division_by_zero : Error
  -- a method call on `undefined`, or an operand that is `undefined`
  type_error : Error
  -- a failed `expect` of chai
  assertion_failed : Error
  -- a transaction that the contracts refuse
  reverted : Error
  -- an exception with a text, by `throw` or by the logger of ethers
  thrown : String → Error

pub data Result {ℓ} (A : Type ℓ) : Type ℓ where
  ok : A → Result A
  err : Error → Result A

-- The rest of the code runs unless an exception was thrown.
abbrev pub ◌>>=◌ {κ ℓ} : {B : Type κ} {A : Type ℓ} → Result B → (B → Result A) → Result A
err e >>= rest = err e
ok value >>= rest = rest value

infixl 5 ◌>>◌ ◌>>=◌
-- A statement and the rest of the code
abbrev pub ◌>>◌ {κ} : {A : Type κ} → Result (Unit {0}) → Result A → Result A
statement >> rest = statement >>= λ done. rest

-- `expect(test)`
abbrev pub expect : Bool → Result (Unit {0})
expect true = ok tt
expect false = err assertion_failed

-- The value of a field of an object that may not have been assigned yet.
abbrev pub defined {ℓ} : {A : Type ℓ} → Option A → Result A
defined none = err type_error
defined (some a) = ok a

-- What holds of the value, if the call returns.
abbrev pub Ensures {ℓ κ} : {A : Type ℓ} → (A → Type κ) → Result A → Type κ
Ensures P (ok a) = P a
Ensures P (err e) = Unit

pub >>=-Ensures {ℓ κ μ} :
    {A : Type ℓ} {B : Type κ} (P : B → Type μ) (m : Result A) (f : A → Result B)
    → ((a : A) → Ensures P (f a))
    → Ensures P (m >>= f)
>>=-Ensures P (ok a) f h = h a
>>=-Ensures P (err e) f h = tt

-- A step that reads a field, a call with a known result, and a call that ensures something itself.
pub read-Ensures {ℓ κ μ} :
    {A : Type ℓ} {B : Type κ} (P : B → Type μ) (o : Option A) (f : A → Result B)
    → ((a : A) → o ≡ some a → Ensures P (f a))
    → Ensures P (defined o >>= f)
read-Ensures P (some a) f h = h a refl
read-Ensures P none f h = tt

pub call-Ensures {ℓ κ μ} :
    {A : Type ℓ} {B : Type κ} (P : B → Type μ) (m : Result A) (f : A → Result B)
    → ((a : A) → m ≡ ok a → Ensures P (f a))
    → Ensures P (m >>= f)
call-Ensures P (ok a) f h = h a refl
call-Ensures P (err e) f h = tt

pub then-Ensures {ℓ κ μ ν} :
    {A : Type ℓ} {B : Type κ} (P : A → Type μ) (Q : B → Type ν) (m : Result A) (f : A → Result B)
    → Ensures P m
    → ((a : A) → P a → Ensures Q (f a))
    → Ensures Q (m >>= f)
then-Ensures P Q (ok a) f p h = h a p
then-Ensures P Q (err e) f p h = tt

-- A chain that returned: its first part returned a value, and so did the rest.
pub >>=-inverse {ℓ κ} :
    {A : Type ℓ} {B : Type κ} (m : Result A) (f : A → Result B) (b : B)
    → (m >>= f) ≡ ok b
    → (a : A) × (m ≡ ok a) × (f a ≡ ok b)
>>=-inverse (ok a) f b h = (a, refl, h)
>>=-inverse (err e) f b h = cc
