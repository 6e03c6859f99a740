-- ===== src/WadRay/Fixed.antt =====
-- What the operations of wadraymath.ts come to on numbers that are not negative, as functions on
-- the natural numbers, and the bounds that the calculations need of them.
use native.Mathlib.Nat.{
  le-div_iff_mul-le, div-lt_iff_lt-mul, mul-le-mul, mul-le-mul_left, mul-le-mul_right,
}
use lend_core.Prelude.{ℕ, suc, ◌+◌, ◌-◌, ◌*◌, ◌/◌, ◌≤◌, ◌<◌, ◌≡◌, ◌⊎◌, inl, inr, arith}
use lend_core.Constants

unfoldable pub mul : ℕ → ℕ → ℕ
mul a b = (Constants.half_ray + a * b) / Constants.ray

unfoldable pub div : ℕ → ℕ → ℕ
div a b = (b / 2 + a * Constants.ray) / b

unfoldable pub percent : ℕ → ℕ → ℕ
percent a bps = (Constants.half_percentage + a * bps) / Constants.percentage_factor

-- The quotient by a positive number is the only number with these bounds.
pub quotient_bounds : (n b : ℕ) → 0 < b → (n / b * b ≤ n) × (n < n / b * b + b)
quotient_bounds n b h =
    let low : n / b * b ≤ n = (le-div_iff_mul-le {k = b} {x = n / b} {y = n} h).0 (omega arith) in
    let high : n < suc (n / b) * b =
      (div-lt_iff_lt-mul {k = b} {x = n} {y = suc (n / b)} h).0 (omega arith) in
    (low, omega arith)

pub le_quotient : (q n b : ℕ) → 0 < b → q * b ≤ n → q ≤ n / b
le_quotient q n b h k = (le-div_iff_mul-le h).1 k

pub quotient_le : (q n b : ℕ) → 0 < b → n < q * b + b → n / b ≤ q
quotient_le q n b h k =
    let below : n / b < suc q = (div-lt_iff_lt-mul {k = b} {x = n} {y = suc q} h).1 (omega arith) in
    omega arith

pub mul_bounds :
    (a b : ℕ)
    → (mul a b * Constants.ray ≤ a * b + Constants.half_ray)
      × (a * b + Constants.half_ray < mul a b * Constants.ray + Constants.ray)
unfolding mul
mul_bounds a b = omega arith

pub mul_mono : (a a' b b' : ℕ) → a ≤ a' → b ≤ b' → mul a b ≤ mul a' b'
unfolding mul
mul_mono a a' b b' h k = omega (arith, mul-le-mul h k)

-- A factor of at least one does not shrink.
pub le-mul : (a b : ℕ) → Constants.ray ≤ a → b ≤ mul a b
unfolding mul
le-mul a b h = omega (arith, mul-le-mul_right b h)

pub mul-ray : (a : ℕ) → mul a Constants.ray ≡ a
unfolding mul
mul-ray a = omega arith

pub ray-mul : (b : ℕ) → mul Constants.ray b ≡ b
unfolding mul
ray-mul b = omega arith

pub mul-le_left : (a b : ℕ) → b ≤ Constants.ray → mul a b ≤ a
unfolding mul
mul-le_left a b h = omega (arith, mul-le-mul_left a h)

pub div_bounds :
    (a b : ℕ)
    → 0 < b
    → (div a b * b ≤ a * Constants.ray + b / 2) × (a * Constants.ray + b / 2 < div a b * b + b)
unfolding div
div_bounds a b h = let bounds = quotient_bounds (b / 2 + a * Constants.ray) b h in omega arith

-- A part of a whole is at most one.
pub div-le-ray : (a b : ℕ) → 0 < b → a ≤ b → div a b ≤ Constants.ray
unfolding div
div-le-ray a b h k = quotient_le Constants.ray (b / 2 + a * Constants.ray) b h (omega arith)

pub zero-div : (b : ℕ) → 0 < b → div 0 b ≡ 0
unfolding div
zero-div b h = omega (arith, quotient_le 0 (b / 2 + 0 * Constants.ray) b h (omega arith))

-- The next larger wholes, one unit at a time, all make a ratio that fits the smaller whole.
div_antitone_add : (a b d : ℕ) → 0 < b → 0 < div a (b + d) → div a (b + d) ≤ div a b
div_antitone_add a b d h p =
    let fits = (div_bounds a (b + d) (omega arith)).0 in
    let step : 1 * d ≤ div a (b + d) * d = mul-le-mul_right d p in
    unfold div in le_quotient (div a (b + d)) (b / 2 + a * Constants.ray) b h (omega arith)

zero_or_pos : (n : ℕ) → (n ≡ 0) ⊎ (0 < n)
zero_or_pos n = omega arith

-- A larger whole makes a smaller ratio, also after rounding.
pub div_antitone : (a b b' : ℕ) → 0 < b → b ≤ b' → div a b' ≤ div a b
div_antitone a b b' h k =
    let split : b' ≡ b + (b' - b) = omega arith in
    rw split (elim (zero_or_pos (div a (b + (b' - b)))) [
      | inl z ↦ omega (arith, z)
      | inr p ↦ div_antitone_add a b (b' - b) h p
    ])

pub percent-le : (a bps : ℕ) → bps ≤ Constants.percentage_factor → percent a bps ≤ a
unfolding percent
percent-le a bps h = omega (arith, mul-le-mul_left a h)
