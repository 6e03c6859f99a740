-- ===== src/WadRay/Scaled.antt =====
-- Amounts that are divided by an index, added to a scaled amount or taken from it, and multiplied
-- by the index again, on the natural numbers.
use lend_core.Prelude.{
  ℕ, ◌+◌, ◌-◌, ◌*◌, ◌/◌, ◌≤◌, ◌<◌, ◌≡◌, ◌==◌, Bool-cases, ==_iff, inl, inr, ap, sym, arith,
}
use lend_core.Constants
use lend_core.Constants.{max_uint_amount}
use lend_core.WadRay.Fixed
use lend_core.WadRay.Fixed.{quotient_bounds, quotient_le}

-- The two amounts differ by at most one and half the index in rays.
abbrev pub IsNear : ℕ → ℕ → ℕ → Type 0
IsNear index a b =
    (2 * Constants.ray * a ≤ 2 * Constants.ray * b + index + 2 * Constants.ray)
    × (2 * Constants.ray * b ≤ 2 * Constants.ray * a + index + 2 * Constants.ray)

mul_bounds :
    (a b : ℕ)
    → (Fixed.mul a b * Constants.ray ≤ Constants.half_ray + a * b)
      × (Constants.half_ray + a * b < Fixed.mul a b * Constants.ray + Constants.ray)
unfolding Fixed.mul
mul_bounds a b = quotient_bounds (Constants.half_ray + a * b) Constants.ray (omega arith)

div_bounds :
    (a b : ℕ)
    → 0 < b
    → (Fixed.div a b * b ≤ b / 2 + a * Constants.ray)
      × (b / 2 + a * Constants.ray < Fixed.div a b * b + b)
unfolding Fixed.div
div_bounds a b h = quotient_bounds (b / 2 + a * Constants.ray) b h

-- A debt that is scaled, and added to a scaled debt, is added to the debt.
pub added-IsNear :
    (scaled debt index : ℕ)
    → 0 < index
    → IsNear index (Fixed.mul (scaled + Fixed.div debt index) index) (Fixed.mul scaled index + debt)
added-IsNear scaled debt index h =
    let moved = div_bounds debt index h in
    let before = mul_bounds scaled index in
    let after = mul_bounds (scaled + Fixed.div debt index) index in
    omega (arith, moved, before, after)

split_product : (a b c index : ℕ) → a + b ≡ c → a * index + b * index ≡ c * index
split_product a b c index h = rw (sym h) (omega arith)

pub taken-IsNear :
    (scaled debt index : ℕ)
    → 0 < index
    → Fixed.div debt index ≤ scaled
    → IsNear index (Fixed.mul (scaled - Fixed.div debt index) index + debt) (Fixed.mul scaled index)
taken-IsNear scaled debt index h k =
    let moved = div_bounds debt index h in
    let before = mul_bounds scaled index in
    let after = mul_bounds (scaled - Fixed.div debt index) index in
    let rest : (scaled - Fixed.div debt index) * index + Fixed.div debt index * index
        ≡ scaled * index =
      split_product (scaled - Fixed.div debt index) (Fixed.div debt index) scaled index
        (omega arith) in
    omega (arith, moved, before, after, rest)

-- With an index of at least one ray, no more is taken than is there.
pub div_le :
    (scaled debt index : ℕ)
    → Constants.ray ≤ index
    → debt ≤ Fixed.mul scaled index
    → Fixed.div debt index ≤ scaled
unfolding Fixed.div
div_le scaled debt index h k =
    let bounds = mul_bounds scaled index in
    quotient_le scaled (index / 2 + debt * Constants.ray) index (omega arith)
      (elim (Bool-cases (index == Constants.ray)) [
        | inl e ↦
            let product : scaled * index ≡ scaled * Constants.ray =
              ap (λ i. scaled * i) ((==_iff _ _).0 e) in
            omega (arith, bounds, k, product, (==_iff _ _).0 e)
        | inr e ↦
            let larger : Constants.ray < index = ground arith in omega (arith, bounds, k, larger)
      ])
