-- ===== src/Interest/Fixed.antt =====
-- The interest formulas on natural numbers: a rate and the seconds that have passed.
use native.Mathlib.Nat.{mul-le-mul, mul-le-mul_left, mul-le-mul_right}
use lend_core.Prelude.{ℕ, ◌+◌, ◌-◌, ◌*◌, ◌/◌, ◌≤◌, ◌≡◌, arith}
use lend_core.Constants.{ray, one_year}
use lend_core.WadRay.Fixed

unfoldable pub linear : ℕ → ℕ → ℕ
linear rate seconds = rate * seconds / one_year + ray

-- The squared and the cubed rate of one second.
unfoldable pub base_power_two : ℕ → ℕ
base_power_two rate = Fixed.mul rate rate / (one_year * one_year)

unfoldable pub base_power_three : ℕ → ℕ
base_power_three rate = Fixed.mul (base_power_two rate) rate / one_year

-- Three terms of the binomial expansion; `-` stops at 0, where the code has the case of itself.
unfoldable pub compounded : ℕ → ℕ → ℕ
compounded rate seconds =
    ray
    + rate * seconds / one_year
    + seconds * (seconds - 1) * base_power_two rate / 2
    + seconds * (seconds - 1) * (seconds - 2) * base_power_three rate / 6

pub ray-le-linear : (rate seconds : ℕ) → ray ≤ linear rate seconds
unfolding linear
ray-le-linear rate seconds = omega arith

pub linear-le-compounded : (rate seconds : ℕ) → linear rate seconds ≤ compounded rate seconds
unfolding linear compounded
linear-le-compounded rate seconds = omega arith

pub linear_mono : (rate s s' : ℕ) → s ≤ s' → linear rate s ≤ linear rate s'
unfolding linear
linear_mono rate s s' h = omega (arith, mul-le-mul_left rate h)

-- Interest never falls as time passes.
pub compounded_mono : (rate s s' : ℕ) → s ≤ s' → compounded rate s ≤ compounded rate s'
unfolding compounded
compounded_mono rate s s' h =
    let one : s - 1 ≤ s' - 1 = omega arith in
    let two : s - 2 ≤ s' - 2 = omega arith in
    let pairs = mul-le-mul h one in
    let triples = mul-le-mul pairs two in
    let first = mul-le-mul_left rate h in
    let second = mul-le-mul_right (base_power_two rate) pairs in
    let third = mul-le-mul_right (base_power_three rate) triples in omega arith

pub compounded_zero : (rate : ℕ) → compounded rate 0 ≡ ray
unfolding compounded
compounded_zero rate = omega arith

pub linear_no_rate : (seconds : ℕ) → linear 0 seconds ≡ ray
unfolding linear
linear_no_rate seconds = omega arith

pub compounded_no_rate : (seconds : ℕ) → compounded 0 seconds ≡ ray
unfolding compounded base_power_two base_power_three Fixed.mul
compounded_no_rate seconds = omega arith
