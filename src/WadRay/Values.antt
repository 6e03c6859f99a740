-- ===== src/WadRay/Values.antt =====
-- The operations of wadraymath.ts on the integers, where the operands are not negative.
use lend_core.Prelude.{ℕ, ◌*◌, ◌<◌, ◌≡◌, refl, pos→==}
use lend_core.Prelude.Int.{pos}
use lend_core.Prelude.Result.{ok}
use lend_core.BigNumber.{integers}
use lend_core.Constants
use lend_core.WadRay.{ray_mul, ray_div, percent_mul, wad_to_ray}
use lend_core.WadRay.Fixed

pub ray_mul-pos : (a b : ℕ) → ray_mul (pos a) (pos b) ≡ ok (pos (Fixed.mul a b))
unfolding ray_mul Fixed.mul
ray_mul-pos a b = refl

pub ray_div-pos : (a b : ℕ) → 0 < b → ray_div (pos a) (pos b) ≡ ok (pos (Fixed.div a b))
unfolding ray_div Fixed.div
ray_div-pos a b h = rw (pos→== b h)

pub percent_mul-pos : (a bps : ℕ) → percent_mul (pos a) (pos bps) ≡ ok (pos (Fixed.percent a bps))
unfolding percent_mul Fixed.percent
percent_mul-pos a bps = refl

pub wad_to_ray-pos : (a : ℕ) → wad_to_ray (pos a) ≡ pos (a * Constants.wad_ray_ratio)
unfolding wad_to_ray
wad_to_ray-pos a = refl
