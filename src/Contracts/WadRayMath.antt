-- ===== src/Contracts/WadRayMath.antt =====
-- contracts/protocol/libraries/math/WadRayMath.sol, instruction by instruction.
use lend_core.Prelude.{ℕ, ◌==◌, ltb, not, ◌||◌, ◌%◌, Option, none, some, if◌then◌else◌}
use lend_core.Constants.{wad, half_wad, ray, half_ray, wad_ray_ratio}
use lend_core.Contracts.Yul.{max_word}
use lend_core.Contracts.Yul

unfoldable pub wad_mul : ℕ → ℕ → Option ℕ
wad_mul a b =
    if not (b == 0 || not (ltb (Yul.div (Yul.sub max_word half_wad) b) a))
    then none
    else some (Yul.div (Yul.add (Yul.mul a b) half_wad) wad)

unfoldable pub wad_div : ℕ → ℕ → Option ℕ
wad_div a b =
    if b == 0 || not (not (ltb (Yul.div (Yul.sub max_word (Yul.div b 2)) wad) a))
    then none
    else some (Yul.div (Yul.add (Yul.mul a wad) (Yul.div b 2)) b)

unfoldable pub ray_mul : ℕ → ℕ → Option ℕ
ray_mul a b =
    if not (b == 0 || not (ltb (Yul.div (Yul.sub max_word half_ray) b) a))
    then none
    else some (Yul.div (Yul.add (Yul.mul a b) half_ray) ray)

unfoldable pub ray_div : ℕ → ℕ → Option ℕ
ray_div a b =
    if b == 0 || not (not (ltb (Yul.div (Yul.sub max_word (Yul.div b 2)) ray) a))
    then none
    else some (Yul.div (Yul.add (Yul.mul a ray) (Yul.div b 2)) b)

unfoldable pub ray_to_wad : ℕ → ℕ
ray_to_wad a =
    let b = Yul.div a wad_ray_ratio in
    let remainder = a % wad_ray_ratio in
    if not (ltb remainder (Yul.div wad_ray_ratio 2)) then Yul.add b 1 else b

unfoldable pub wad_to_ray : ℕ → Option ℕ
wad_to_ray a =
    let b = Yul.mul a wad_ray_ratio in if not (Yul.div b wad_ray_ratio == a) then none else some b
