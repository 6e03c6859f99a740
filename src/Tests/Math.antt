-- ===== src/Tests/Math.antt =====
-- The theorems about the fixed-point arithmetic at concrete inputs.
use lend_core.BigNumber.{integers, integers-Documented}
use lend_core.Contracts.Agreement.{conversions_agree, products_agree, quotients_agree}
use lend_core.Contracts.Words.{checked}
use lend_core.Contracts.Yul.{word_mod}
use lend_core.Prelude.{arith, if◌then◌else◌, ltb, none, some, ℕ, ◌*◌, ◌+◌, ◌/◌, ◌<◌, ◌^◌, ◌≡◌}
use lend_core.Prelude.Int.{negsuc, pos, ◌+ℤ◌}
use lend_core.Prelude.Result.{division_by_zero, err, ok}
use lend_core.Tests.Data.{divisor, half_unit}
use lend_core.WadRay.{
  half_ray, percent_div, percent_mul, ray, ray_div, ray_mul, ray_to_wad, wad_div, wad_mul,
  wad_to_ray,
}
use lend_core.WadRay.Rounding.{
  Rounds, products_round, quotients_round, ray_mul-negative, ray_to_wad-wad_to_ray,
}
use lend_core.Constants
use lend_core.Contracts.PercentageMath
use lend_core.Contracts.WadRayMath
use lend_core.WadRay

products_round_example :
    ((c : ℕ) × (wad_mul (pos 3) (pos half_unit) ≡ ok (pos c))
      × Rounds c (3 * half_unit) Constants.wad)
    × ((c : ℕ) × (ray_mul (pos 3) (pos half_unit) ≡ ok (pos c))
        × Rounds c (3 * half_unit) Constants.ray)
    × ((c : ℕ) × (percent_mul (pos 3) (pos half_unit) ≡ ok (pos c))
        × Rounds c (3 * half_unit) Constants.percentage_factor)
products_round_example = products_round ⦃big = integers⦄ integers-Documented 3 half_unit

quotients_round_example :
    ((c : ℕ) × (wad_div (pos 2) (pos 3) ≡ ok (pos c)) × Rounds c (2 * Constants.wad) 3)
    × ((c : ℕ) × (ray_div (pos 2) (pos 3) ≡ ok (pos c)) × Rounds c (2 * Constants.ray) 3)
    × ((c : ℕ) × (percent_div (pos 2) (pos 3) ≡ ok (pos c))
        × Rounds c (2 * Constants.percentage_factor) 3)
quotients_round_example = quotients_round ⦃big = integers⦄ integers-Documented 2 3 (omega arith)

ray_to_wad-wad_to_ray_example :
    (ray_to_wad (wad_to_ray (pos 1500000000)) ≡ ok (pos 1500000000))
    × ((c : ℕ) × (ray_to_wad (pos 1500000000) ≡ ok (pos c))
        × Rounds c 1500000000 Constants.wad_ray_ratio)
ray_to_wad-wad_to_ray_example =
    ray_to_wad-wad_to_ray ⦃big = integers⦄ integers-Documented 1500000000

ray_mul-negative_example :
    (ray_mul (negsuc 0) ray ≡ ok (negsuc 0 +ℤ pos 1)) × (ray_mul (pos 0) ray ≡ ok (pos 0))
ray_mul-negative_example = ray_mul-negative ⦃big = integers⦄ integers-Documented 0

products_agree_example :
    ((c : ℕ) × (WadRay.wad_mul (pos (2 ^ 200)) (pos (2 ^ 100)) ≡ ok (pos c))
      × (WadRayMath.wad_mul (2 ^ 200) (2 ^ 100)
          ≡ (if ltb ((2 ^ 200) * (2 ^ 100) + Constants.half_wad) word_mod then some c else none)))
    × ((c : ℕ) × (WadRay.ray_mul (pos (2 ^ 200)) (pos (2 ^ 100)) ≡ ok (pos c))
        × (WadRayMath.ray_mul (2 ^ 200) (2 ^ 100)
            ≡ (if ltb ((2 ^ 200) * (2 ^ 100) + Constants.half_ray) word_mod then some c else none)))
    × ((c : ℕ) × (WadRay.percent_mul (pos (2 ^ 200)) (pos (2 ^ 100)) ≡ ok (pos c))
        × (PercentageMath.percent_mul (2 ^ 200) (2 ^ 100) ≡ (
            if ltb ((2 ^ 200) * (2 ^ 100) + Constants.half_percentage) word_mod
            then some c
            else none)))
products_agree_example = products_agree ⦃big = integers⦄ integers-Documented (2 ^ 200) (2 ^ 100)

quotients_agree_example :
    (0 < divisor
      → ((c : ℕ) × (WadRay.wad_div (pos (2 ^ 200)) (pos divisor) ≡ ok (pos c))
          × (WadRayMath.wad_div (2 ^ 200) divisor
              ≡ (if ltb ((2 ^ 200) * Constants.wad + divisor / 2) word_mod then some c else none)))
        × ((c : ℕ) × (WadRay.ray_div (pos (2 ^ 200)) (pos divisor) ≡ ok (pos c))
            × (WadRayMath.ray_div (2 ^ 200) divisor ≡ (
                if ltb ((2 ^ 200) * Constants.ray + divisor / 2) word_mod then some c else none)))
        × ((c : ℕ) × (WadRay.percent_div (pos (2 ^ 200)) (pos divisor) ≡ ok (pos c))
            × (PercentageMath.percent_div (2 ^ 200) divisor ≡ (
                if ltb ((2 ^ 200) * Constants.percentage_factor + divisor / 2) word_mod
                then some c
                else none))))
    × (divisor ≡ 0
        → (WadRay.wad_div (pos (2 ^ 200)) (pos divisor) ≡ err division_by_zero)
          × (WadRay.ray_div (pos (2 ^ 200)) (pos divisor) ≡ err division_by_zero)
          × (WadRay.percent_div (pos (2 ^ 200)) (pos divisor) ≡ err division_by_zero)
          × (WadRayMath.wad_div (2 ^ 200) divisor ≡ none)
          × (WadRayMath.ray_div (2 ^ 200) divisor ≡ none)
          × (PercentageMath.percent_div (2 ^ 200) divisor ≡ none))
quotients_agree_example =
    quotients_agree ⦃big = integers⦄ integers-Documented (2 ^ 200) divisor (omega arith)

conversions_agree_example :
    (WadRay.ray_to_wad (pos (2 ^ 250)) ≡ ok (pos (WadRayMath.ray_to_wad (2 ^ 250))))
    × (WadRay.wad_to_ray (pos (2 ^ 250)) ≡ pos ((2 ^ 250) * Constants.wad_ray_ratio))
    × (WadRayMath.wad_to_ray (2 ^ 250) ≡ checked ((2 ^ 250) * Constants.wad_ray_ratio))
conversions_agree_example =
    conversions_agree ⦃big = integers⦄ integers-Documented (2 ^ 250) (omega arith)
