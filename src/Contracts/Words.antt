-- ===== src/Contracts/Words.antt =====
-- 256-bit words: those of Yul, which wrap around, and the checked ones of Solidity 0.8, which revert.
use native.Mathlib.Nat.{le-div_iff_mul-le}
use lend_core.Prelude.{
  ℕ, ◌+◌, ◌-◌, ◌*◌, ◌/◌, ◌≤◌, ◌<◌, ◌≡◌, refl, true, not, Option, none, some, arith, ltb, leb,
  if◌then◌else◌, Bool-cases, inl, inr,
}
use lend_core.Contracts.Yul.{word_mod, max_word}

-- A checked result, or a revert.
abbrev pub checked : ℕ → Option ℕ
checked n = if ltb n word_mod then some n else none

abbrev pub checked_sub : ℕ → ℕ → Option ℕ
checked_sub a b = if leb b a then some (a - b) else none

abbrev pub checked_add : ℕ → ℕ → Option ℕ
checked_add a b = checked (a + b)

abbrev pub checked_mul : ℕ → ℕ → Option ℕ
checked_mul a b = checked (a * b)

infixl 5 ◌>>=◌
abbrev pub ◌>>=◌ {ℓ κ} : {A : Type ℓ} {B : Type κ} → Option A → (A → Option B) → Option B
none >>= f = none
some a >>= f = f a

-- A call reverts, or it returns this value.
unfoldable pub Returns {ℓ} : {A : Type ℓ} → A → Option A → Type ℓ
Returns a none = Unit
Returns a (some b) = b ≡ a

pub Returns-some {ℓ} : {A : Type ℓ} (a : A) → Returns a (some a)
unfolding Returns
Returns-some a = refl

pub Returns-none {ℓ} : {A : Type ℓ} (a : A) → Returns a none
unfolding Returns
Returns-none a = tt

pub >>=-Returns {ℓ κ} :
    {A : Type ℓ} {B : Type κ} (a : A) (b : B) (m : Option A) (f : A → Option B)
    → Returns a m
    → Returns b (f a)
    → Returns b (m >>= f)
unfolding Returns
>>=-Returns a b none f h k = tt
>>=-Returns a b (some c) f h k = rw h k

pub Returns-eq {ℓ} : {A : Type ℓ} (a b : A) (m : Option A) → Returns a m → m ≡ some b → b ≡ a
unfolding Returns
Returns-eq a b none h e = cc
Returns-eq a b (some c) h e = cc

pub checked-Returns : (n m : ℕ) → m ≡ n → Returns n (checked m)
unfolding Returns
checked-Returns n m e = ground arith

fits_word : (m n : ℕ) → m ≡ n → ltb m word_mod ≡ true → n ≤ max_word
fits_word m n e h = ground arith

-- What is returned as checked fits a word.
pub checked-then {ℓ} :
    {B : Type ℓ} (n m : ℕ) (b : B) (f : ℕ → Option B)
    → m ≡ n
    → (n ≤ max_word → Returns b (f n))
    → Returns b (checked m >>= f)
unfolding Returns
checked-then n m b f e k = elim (Bool-cases (ltb m word_mod)) [
  | inl fits ↦ rw (fits, e) (k (fits_word m n e fits))
  | inr over ↦ rw over tt
]

-- A difference that is returned is one of numbers in order.
pub checked_sub-le {ℓ} :
    {B : Type ℓ} (a b : ℕ) (f : ℕ → Option B) {c : B} → (checked_sub a b >>= f) ≡ some c → b ≤ a
checked_sub-le a b f e = ground arith

pub checked_sub-Returns : (a b : ℕ) → Returns (a - b) (checked_sub a b)
unfolding Returns
checked_sub-Returns a b = ground arith

-- The libraries test `a > (max - half) / b` before they multiply: exactly the overflow of
-- `a * b + half`.
pub overflow_guard :
    (a b half : ℕ)
    → 0 < b
    → half ≤ max_word
    → ltb ((max_word - half) / b) a ≡ not (ltb (a * b + half) word_mod)
overflow_guard a b half h k =
    ground (arith, le-div_iff_mul-le {k = b} {x = a} {y = max_word - half} h)
