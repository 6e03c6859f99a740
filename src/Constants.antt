-- ===== src/Constants.antt =====
-- helpers/constants.ts: the constants of the protocol, as the numbers that their texts spell.
use lend_core.Prelude.{ℕ, ◌^◌, ◌/◌}

abbrev pub percentage_factor : ℕ
percentage_factor = 10000

abbrev pub half_percentage : ℕ
half_percentage = percentage_factor / 2

abbrev pub wad : ℕ
wad = 10 ^ 18

abbrev pub half_wad : ℕ
half_wad = wad / 2

abbrev pub ray : ℕ
ray = 10 ^ 27

abbrev pub half_ray : ℕ
half_ray = ray / 2

abbrev pub wad_ray_ratio : ℕ
wad_ray_ratio = 10 ^ 9

abbrev pub max_uint_amount : ℕ
max_uint_amount = 115792089237316195423570985008687907853269984665640564039457584007913129639935

abbrev pub one_year : ℕ
one_year = 31536000
