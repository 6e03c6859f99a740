-- ===== src/BigNumber.antt =====
-- The interface of `BigNumber` (package @ethersproject/bignumber), which every calculation of
-- test-suites/helpers/utils takes: an immutable integer of any size. A BigNumber is represented
-- by the integer that it holds, which is all that the code ever looks at.
use lend_core.Prelude.{
  ◌≡◌, refl, ◌≢◌, Bool, true, false, arith, ◌==◌, if◌then◌else◌, sym, ◌↔◌, inl, inr, Bool-cases,
  ◌∙◌,
}
use lend_core.Prelude.Int.{ℤ, pos, negsuc, ◌+ℤ◌, ◌-ℤ◌, ◌*ℤ◌, tdiv, abs_ℤ, eqb_ℤ, ltb_ℤ, leb_ℤ}
use lend_core.Prelude.Result.{Result, ok, err, division_by_zero}

-- The methods that the code calls. Division throws.
pub record BigNumberApi : Type 0 where
  pub add : ℤ → ℤ → ℤ
  pub sub : ℤ → ℤ → ℤ
  pub mul : ℤ → ℤ → ℤ
  pub div : ℤ → ℤ → Result ℤ
  pub abs : ℤ → ℤ
  pub eq : ℤ → ℤ → Bool
  pub lt : ℤ → ℤ → Bool
  pub lte : ℤ → ℤ → Bool
  pub gt : ℤ → ℤ → Bool

-- What the package documents: the exact operations of the integers, with a division that rounds
-- towards zero and throws `division-by-zero`.
pub record Documented (big : BigNumberApi) : Type 0 where
  pub add-eq : (x y : ℤ) → big.add x y ≡ x +ℤ y
  pub sub-eq : (x y : ℤ) → big.sub x y ≡ x -ℤ y
  pub mul-eq : (x y : ℤ) → big.mul x y ≡ x *ℤ y
  pub div-zero : (x : ℤ) → big.div x (pos 0) ≡ err division_by_zero
  pub div-eq : (x y : ℤ) → y ≢ pos 0 → big.div x y ≡ ok (tdiv x y)
  pub abs-eq : (x : ℤ) → big.abs x ≡ abs_ℤ x
  pub eq-eq : (x y : ℤ) → big.eq x y ≡ eqb_ℤ x y
  pub lt-eq : (x y : ℤ) → big.lt x y ≡ ltb_ℤ x y
  pub lte-eq : (x y : ℤ) → big.lte x y ≡ leb_ℤ x y
  pub gt-eq : (x y : ℤ) → big.gt x y ≡ ltb_ℤ y x

abbrev pub is_zero : ℤ → Bool
is_zero (pos n) = n == 0
is_zero (negsuc n) = false

abbrev pub div_ℤ : ℤ → ℤ → Result ℤ
div_ℤ x y = if is_zero y then err division_by_zero else ok (tdiv x y)

-- The integers as an implementation.
instance abbrev pub integers : BigNumberApi
integers = record {
  add = ◌+ℤ◌;
  sub = ◌-ℤ◌;
  mul = ◌*ℤ◌;
  div = div_ℤ;
  abs = abs_ℤ;
  eq = eqb_ℤ;
  lt = ltb_ℤ;
  lte = leb_ℤ;
  gt = λ x y. ltb_ℤ y x;
}

is_zero-true : (y : ℤ) → is_zero y ≡ true → y ≡ pos 0
is_zero-true y h = ground arith

is_zero-false : (y : ℤ) → is_zero y ≡ false → y ≢ pos 0
is_zero-false y h e = ground arith

integers_div-eq : (x y : ℤ) → y ≢ pos 0 → div_ℤ x y ≡ ok (tdiv x y)
integers_div-eq x y h = elim (Bool-cases (is_zero y)) [
  | inl z ↦ absurd (h (is_zero-true y z))
  | inr z ↦ rw z
]

-- Division throws by zero, and by nothing else.
pub div_ℤ-throws : (x y : ℤ) → (div_ℤ x y ≡ err division_by_zero) ↔ (y ≡ pos 0)
div_ℤ-throws x y = elim (Bool-cases (is_zero y)) [
  | inl z ↦ (λ _. is_zero-true y z, λ _. rw z)
  | inr z ↦ (λ e. cc (integers_div-eq x y (is_zero-false y z)), λ e. absurd (is_zero-false y z e))
]

pub integers-Documented : Documented integers
integers-Documented = record {
  add-eq = λ x y. refl;
  sub-eq = λ x y. refl;
  mul-eq = λ x y. refl;
  div-zero = λ x. refl;
  div-eq = integers_div-eq;
  abs-eq = λ x. refl;
  eq-eq = λ x y. refl;
  lt-eq = λ x y. refl;
  lte-eq = λ x y. refl;
  gt-eq = λ x y. refl;
}

div_unique : (big : BigNumberApi) → Documented big → (x y : ℤ) → big.div x y ≡ div_ℤ x y
div_unique big doc x y = elim (Bool-cases (is_zero y)) [
  | inl z ↦ rw (is_zero-true y z) (doc.div-zero x)
  | inr z ↦ doc.div-eq x y (is_zero-false y z) ∙ sym (integers_div-eq x y (is_zero-false y z))
]

-- The documentation leaves no choice: whatever keeps to it is the integers.
pub Documented-integers : (big : BigNumberApi) → Documented big → big ≡ integers
Documented-integers big doc = λ i. record {
  add = λ x y. doc.add-eq x y i;
  sub = λ x y. doc.sub-eq x y i;
  mul = λ x y. doc.mul-eq x y i;
  div = λ x y. div_unique big doc x y i;
  abs = λ x. doc.abs-eq x i;
  eq = λ x y. doc.eq-eq x y i;
  lt = λ x y. doc.lt-eq x y i;
  lte = λ x y. doc.lte-eq x y i;
  gt = λ x y. doc.gt-eq x y i;
}
