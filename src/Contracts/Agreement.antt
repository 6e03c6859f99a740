-- ===== src/Contracts/Agreement.antt =====
-- wadraymath.ts against WadRayMath.sol and PercentageMath.sol.
use native.Mathlib.Nat.{mul-zero}
use lend_core.Prelude.{
  ℕ, ◌+◌, ◌-◌, ◌*◌, ◌/◌, ◌%◌, ◌≤◌, ◌<◌, ◌≡◌, refl, Option, none, some, arith, ltb, ◌==◌,
  if◌then◌else◌, not, ◌||◌, true, Bool-cases, inl, inr, lt→ltb, pos→==, ap,
}
use lend_core.WadRay.Fixed
use lend_core.Contracts.Words.{overflow_guard, checked, Returns, checked-then, ◌>>=◌}
use lend_core.Contracts.Yul.{word_mod, max_word}
use lend_core.Contracts.Yul
use lend_core.Constants
use lend_core.Prelude.Int.{pos}
use lend_core.Prelude.Result.{ok, err, division_by_zero}
use lend_core.BigNumber.{BigNumberApi, Documented, Documented-integers}
use lend_core.WadRay
use lend_core.Contracts.WadRayMath
use lend_core.Contracts.PercentageMath

max-sub : (n : ℕ) → n ≤ max_word → Yul.sub max_word n ≡ max_word - n
max-sub n h = omega arith

sum_fits : (n half : ℕ) → n + half < word_mod → Yul.add (n % word_mod) half ≡ half + n
sum_fits n half h = omega arith

zero_iff : (b : ℕ) → (b == 0) ≡ true → b ≡ 0
zero_iff b h = ground arith

fits_iff : (n : ℕ) → ltb n word_mod ≡ true → n < word_mod
fits_iff n h = ground arith

-- Behind the guard the sum under the division fits a word, so that nothing wraps around.
guarded :
    (n half d : ℕ)
    → (if not (not (not (ltb (n + half) word_mod)))
        then none
        else some (Yul.div (Yul.add (n % word_mod) half) d))
      ≡ (if ltb (n + half) word_mod then some ((half + n) / d) else none)
guarded n half d = elim (Bool-cases (ltb (n + half) word_mod)) [
  | inl fits ↦ rw (fits, sum_fits n half (fits_iff (n + half) fits))
  | inr over ↦ rw over
]

rounded_product :
    (a b half unit : ℕ)
    → half ≤ max_word
    → (if not (b == 0 || not (ltb (Yul.div (Yul.sub max_word half) b) a))
        then none
        else some (Yul.div (Yul.add (Yul.mul a b) half) unit))
      ≡ (if ltb (a * b + half) word_mod then some ((half + a * b) / unit) else none)
rounded_product a b half unit h = elim (Bool-cases (b == 0)) [
  | inl z ↦ rw (
    zero_iff b z,
    mul-zero a,
    lt→ltb (0 + half) word_mod (omega arith),
    sum_fits 0 half (omega arith),
  )
  | inr p ↦
      rw (p, max-sub half h, overflow_guard a b half (ground arith) h) (guarded (a * b) half unit)
]

rounded_quotient :
    (a b unit : ℕ)
    → b ≤ max_word
    → 0 < unit
    → 0 < b
    → (if b == 0 || not (not (ltb (Yul.div (Yul.sub max_word (Yul.div b 2)) unit) a))
        then none
        else some (Yul.div (Yul.add (Yul.mul a unit) (Yul.div b 2)) b))
      ≡ (if ltb (a * unit + b / 2) word_mod then some ((b / 2 + a * unit) / b) else none)
rounded_quotient a b unit h k p =
    rw (pos→== b p, max-sub (b / 2) (omega arith), overflow_guard a unit (b / 2) k (omega arith))
      (guarded (a * unit) (b / 2) b)

nearest :
    (a : ℕ) → a ≤ max_word → (500000000 + a) / Constants.wad_ray_ratio ≡ WadRayMath.ray_to_wad a
unfolding WadRayMath.ray_to_wad
nearest a h = ground arith

scaled : (a : ℕ) → a ≤ max_word → WadRayMath.wad_to_ray a ≡ checked (a * Constants.wad_ray_ratio)
unfolding WadRayMath.wad_to_ray
scaled a h = ground arith

-- `rayMul` and the other operations of the contracts on rays revert, or they return the rounded
-- results.
pub ray_mul-Returns : (a b : ℕ) → Returns (Fixed.mul a b) (WadRayMath.ray_mul a b)
unfolding Returns WadRayMath.ray_mul Fixed.mul
ray_mul-Returns a b =
    rw (rounded_product a b Constants.half_ray Constants.ray (omega arith)) (ground arith)

pub ray_div-Returns :
    (a b : ℕ) → b ≤ max_word → 0 < b → Returns (Fixed.div a b) (WadRayMath.ray_div a b)
unfolding Returns WadRayMath.ray_div Fixed.div
ray_div-Returns a b h p = rw (rounded_quotient a b Constants.ray h (omega arith) p) (ground arith)

pub percent_mul-Returns : (a b : ℕ) → Returns (Fixed.percent a b) (PercentageMath.percent_mul a b)
unfolding Returns PercentageMath.percent_mul Fixed.percent
percent_mul-Returns a b =
    rw (rounded_product a b Constants.half_percentage Constants.percentage_factor (omega arith))
      (ground arith)

pub wad_to_ray-then {ℓ} :
    {B : Type ℓ} (a : ℕ) (b : B) (f : ℕ → Option B)
    → a ≤ max_word
    → (a * Constants.wad_ray_ratio ≤ max_word → Returns b (f (a * Constants.wad_ray_ratio)))
    → Returns b (WadRayMath.wad_to_ray a >>= f)
wad_to_ray-then a b f h k = rw (scaled a h) (checked-then _ _ b f refl k)

module _ ⦃big : BigNumberApi⦄ (doc : Documented big) (a b : ℕ) where
  -- For all numbers that are not negative, `wadMul`, `rayMul` and `percentMul` of the contracts
  -- return what the TypeScript functions return, and revert exactly if the product plus half the
  -- unit does not fit a word.
  pub products_agree :
      ((c : ℕ) × (WadRay.wad_mul (pos a) (pos b) ≡ ok (pos c))
        × (WadRayMath.wad_mul a b
            ≡ (if ltb (a * b + Constants.half_wad) word_mod then some c else none)))
      × ((c : ℕ) × (WadRay.ray_mul (pos a) (pos b) ≡ ok (pos c))
          × (WadRayMath.ray_mul a b
              ≡ (if ltb (a * b + Constants.half_ray) word_mod then some c else none)))
      × ((c : ℕ) × (WadRay.percent_mul (pos a) (pos b) ≡ ok (pos c))
          × (PercentageMath.percent_mul a b
              ≡ (if ltb (a * b + Constants.half_percentage) word_mod then some c else none)))
  unfolding WadRay.wad_mul WadRay.ray_mul WadRay.percent_mul WadRayMath.wad_mul WadRayMath.ray_mul
      PercentageMath.percent_mul
  products_agree = rw (Documented-integers big doc) (
    (_, refl, rounded_product a b Constants.half_wad Constants.wad (omega arith)),
    (_, refl, rounded_product a b Constants.half_ray Constants.ray (omega arith)),
    (
      _,
      refl,
      rounded_product a b Constants.half_percentage Constants.percentage_factor (omega arith),
    ),
  )

  -- On a positive divisor that is a word, `wadDiv`, `rayDiv` and `percentDiv` of the contracts
  -- return what the TypeScript functions return, and revert exactly if the dividend in units plus
  -- half the divisor does not fit a word. By zero the contracts revert where TypeScript throws.
  pub quotients_agree :
      b ≤ max_word
      → (0 < b
          → ((c : ℕ) × (WadRay.wad_div (pos a) (pos b) ≡ ok (pos c))
              × (WadRayMath.wad_div a b
                  ≡ (if ltb (a * Constants.wad + b / 2) word_mod then some c else none)))
            × ((c : ℕ) × (WadRay.ray_div (pos a) (pos b) ≡ ok (pos c))
                × (WadRayMath.ray_div a b
                    ≡ (if ltb (a * Constants.ray + b / 2) word_mod then some c else none)))
            × ((c : ℕ) × (WadRay.percent_div (pos a) (pos b) ≡ ok (pos c))
                × (PercentageMath.percent_div a b ≡ (
                    if ltb (a * Constants.percentage_factor + b / 2) word_mod
                    then some c
                    else none))))
        × (b ≡ 0
            → (WadRay.wad_div (pos a) (pos b) ≡ err division_by_zero)
              × (WadRay.ray_div (pos a) (pos b) ≡ err division_by_zero)
              × (WadRay.percent_div (pos a) (pos b) ≡ err division_by_zero)
              × (WadRayMath.wad_div a b ≡ none)
              × (WadRayMath.ray_div a b ≡ none)
              × (PercentageMath.percent_div a b ≡ none))
  unfolding WadRay.wad_div WadRay.ray_div WadRay.percent_div WadRayMath.wad_div WadRayMath.ray_div
      PercentageMath.percent_div
  quotients_agree h = rw (Documented-integers big doc) (
    (λ p. (
      (_, rw (pos→== b p), rounded_quotient a b Constants.wad h (omega arith) p),
      (_, rw (pos→== b p), rounded_quotient a b Constants.ray h (omega arith) p),
      (_, rw (pos→== b p), rounded_quotient a b Constants.percentage_factor h (omega arith) p),
    )),
    λ e. rw e (refl, refl, refl, refl, refl, refl),
  )

module _ ⦃big : BigNumberApi⦄ (doc : Documented big) where
  -- On a word the conversions of the contracts return what the TypeScript functions return; only
  -- `wadToRay` reverts, exactly if the product does not fit a word.
  pub conversions_agree :
      (a : ℕ)
      → a ≤ max_word
      → (WadRay.ray_to_wad (pos a) ≡ ok (pos (WadRayMath.ray_to_wad a)))
        × (WadRay.wad_to_ray (pos a) ≡ pos (a * Constants.wad_ray_ratio))
        × (WadRayMath.wad_to_ray a ≡ checked (a * Constants.wad_ray_ratio))
  unfolding WadRay.ray_to_wad WadRay.wad_to_ray WadRayMath.ray_to_wad WadRayMath.wad_to_ray
  conversions_agree a h =
      rw (Documented-integers big doc) (ap ok (ap pos (nearest a h)), refl, scaled a h)
