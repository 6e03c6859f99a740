-- ===== src/WadRay.antt =====
-- test-suites/helpers/utils/wadraymath.ts: fixed-point arithmetic in wads (18 decimals), rays
-- (27 decimals) and basis points, rounded half up by adding half the divisor first.

pub mod Fixed
pub mod Values
pub mod Scaled
pub mod Rounding
use lend_core.Prelude.Int.{ℤ, pos, negsuc}
use lend_core.Prelude.Result.{Result, ◌>>=◌}
use lend_core.BigNumber.{BigNumberApi}
use lend_core.Constants as Constants

-- `ray()`, `wad()`, `halfRay()`, `halfWad()`, `halfPercentage()`, `percentageFactor()`
abbrev pub ray : ℤ
ray = pos Constants.ray

abbrev pub wad : ℤ
wad = pos Constants.wad

abbrev pub half_ray : ℤ
half_ray = pos Constants.half_ray

abbrev pub half_wad : ℤ
half_wad = pos Constants.half_wad

abbrev pub half_percentage : ℤ
half_percentage = pos Constants.half_percentage

abbrev pub percentage_factor : ℤ
percentage_factor = pos Constants.percentage_factor

abbrev wad_ray_ratio : ℤ
wad_ray_ratio = pos Constants.wad_ray_ratio

module _ ⦃big : BigNumberApi⦄ where
  open big use {add, mul, div}

  unfoldable pub wad_mul : ℤ → ℤ → Result ℤ
  wad_mul receiver other = div (add half_wad (mul receiver other)) wad

  unfoldable pub wad_div : ℤ → ℤ → Result ℤ
  wad_div receiver other = do
    half_other ← div other (pos 2)
    div (add half_other (mul receiver wad)) other

  unfoldable pub ray_mul : ℤ → ℤ → Result ℤ
  ray_mul receiver other = div (add half_ray (mul receiver other)) ray

  unfoldable pub ray_div : ℤ → ℤ → Result ℤ
  ray_div receiver other = do
    half_other ← div other (pos 2)
    div (add half_other (mul receiver ray)) other

  unfoldable pub percent_mul : ℤ → ℤ → Result ℤ
  percent_mul receiver bps = div (add half_percentage (mul receiver bps)) percentage_factor

  unfoldable pub percent_div : ℤ → ℤ → Result ℤ
  percent_div receiver bps = do
    half_bps ← div bps (pos 2)
    div (add half_bps (mul receiver percentage_factor)) bps

  unfoldable pub ray_to_wad : ℤ → Result ℤ
  ray_to_wad receiver = do
    half_ratio ← div wad_ray_ratio (pos 2)
    div (add half_ratio receiver) wad_ray_ratio

  unfoldable pub wad_to_ray : ℤ → ℤ
  wad_to_ray receiver = mul receiver wad_ray_ratio

  unfoldable pub negated : ℤ → ℤ
  negated receiver = mul receiver (negsuc 0)
