-- ===== src/WadRay/Rounding.antt =====
-- How the operations of wadraymath.ts round, for every BigNumber that keeps to its documentation.
use lend_core.Prelude.{ℕ, zero, suc, ◌+◌, ◌*◌, ◌/◌, ◌≤◌, ◌<◌, ◌≡◌, refl, ap, arith, pos→==}
use lend_core.Prelude.Int.{pos, negsuc, tdiv, ◌+ℤ◌, ◌*ℤ◌}
use lend_core.Prelude.Result.{ok}
use lend_core.BigNumber.{BigNumberApi, Documented, Documented-integers}
use lend_core.Constants
use lend_core.WadRay.{
  wad_mul, wad_div, ray_mul, ray_div, percent_mul, percent_div, ray_to_wad, wad_to_ray, ray,
  half_ray,
}
use lend_core.WadRay.Fixed.{quotient_bounds}

-- `q` is the exact quotient n / d rounded to the nearest number, a half upwards, up to the
-- half unit that an odd divisor loses.
abbrev pub Rounds : ℕ → ℕ → ℕ → Type 0
Rounds q n d = (q * d ≤ n + d / 2) × (n + d / 2 < q * d + d)

half_up : (n d : ℕ) → 0 < d → Rounds ((d / 2 + n) / d) n d
half_up n d h = let bounds = quotient_bounds (d / 2 + n) d h in omega arith

negative_half : (n : ℕ) → tdiv (half_ray +ℤ (negsuc n *ℤ ray)) ray ≡ negsuc n +ℤ pos 1
negative_half zero = refl
negative_half (suc n) = ground arith

module _ ⦃big : BigNumberApi⦄ (doc : Documented big) where
  -- On numbers that are not negative the three products return the product over the unit (a wad,
  -- a ray, or 10000 basis points), rounded to the nearest number, a half upwards.
  pub products_round :
      (a b : ℕ)
      → ((c : ℕ) × (wad_mul (pos a) (pos b) ≡ ok (pos c)) × Rounds c (a * b) Constants.wad)
        × ((c : ℕ) × (ray_mul (pos a) (pos b) ≡ ok (pos c)) × Rounds c (a * b) Constants.ray)
        × ((c : ℕ) × (percent_mul (pos a) (pos b) ≡ ok (pos c))
            × Rounds c (a * b) Constants.percentage_factor)
  unfolding wad_mul ray_mul percent_mul
  products_round a b = rw (Documented-integers big doc) (
    (_, refl, half_up (a * b) Constants.wad (omega arith)),
    (_, refl, half_up (a * b) Constants.ray (omega arith)),
    (_, refl, half_up (a * b) Constants.percentage_factor (omega arith)),
  )

  -- On a number that is not negative and a positive divisor the three quotients return the
  -- number of units over the divisor, rounded to the nearest number; the half that is added for
  -- this is rounded down.
  pub quotients_round :
      (a b : ℕ)
      → 0 < b
      → ((c : ℕ) × (wad_div (pos a) (pos b) ≡ ok (pos c)) × Rounds c (a * Constants.wad) b)
        × ((c : ℕ) × (ray_div (pos a) (pos b) ≡ ok (pos c)) × Rounds c (a * Constants.ray) b)
        × ((c : ℕ) × (percent_div (pos a) (pos b) ≡ ok (pos c))
            × Rounds c (a * Constants.percentage_factor) b)
  unfolding wad_div ray_div percent_div
  quotients_round a b h = rw (Documented-integers big doc) (
    (_, rw (pos→== b h), half_up (a * Constants.wad) b h),
    (_, rw (pos→== b h), half_up (a * Constants.ray) b h),
    (_, rw (pos→== b h), half_up (a * Constants.percentage_factor) b h),
  )

  -- A wad amount comes back unchanged from rays, and a ray amount comes back rounded to the
  -- nearest multiple of the ratio.
  pub ray_to_wad-wad_to_ray :
      (a : ℕ)
      → (ray_to_wad (wad_to_ray (pos a)) ≡ ok (pos a))
        × ((c : ℕ) × (ray_to_wad (pos a) ≡ ok (pos c)) × Rounds c a Constants.wad_ray_ratio)
  unfolding ray_to_wad wad_to_ray
  ray_to_wad-wad_to_ray a =
      rw (Documented-integers big doc) (ap ok (ap pos (omega arith)), (_, refl, omega arith))

  -- On a negative number the half still pushes upwards and the division then rounds towards
  -- zero: a ray product with exactly one ray returns every negative number increased by one, -1
  -- included. A number that is not negative comes back unchanged.
  pub ray_mul-negative :
      (n : ℕ)
      → (ray_mul (negsuc n) ray ≡ ok (negsuc n +ℤ pos 1)) × (ray_mul (pos n) ray ≡ ok (pos n))
  unfolding ray_mul
  ray_mul-negative n =
      rw (Documented-integers big doc) (ap ok (negative_half n), ap ok (ap pos (omega arith)))
