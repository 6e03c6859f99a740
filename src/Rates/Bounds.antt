-- ===== src/Rates/Bounds.antt =====
-- The bounds of the ratios and of the rates of calculations.ts, for every BigNumber that keeps to
-- its documentation.
use native.Mathlib.Nat.{mul-le-mul_left, mul-le-mul_right}
use lend_core.Prelude.{ℕ, ◌+◌, ◌*◌, ◌/◌, ◌≤◌, ◌<◌, ◌≡◌, refl, arith, pos→==}
use lend_core.Prelude.Int.{pos}
use lend_core.Prelude.Result.{ok}
use lend_core.BigNumber.{BigNumberApi, Documented, Documented-integers}
use lend_core.Constants.{ray, wad_ray_ratio}
use lend_core.WadRay.Fixed
use lend_core.WadRay.Fixed.{quotient_bounds, le_quotient, quotient_le}
use lend_core.Rates.{
  calc_expected_usage_ratios, calc_expected_overall_borrow_rate,
  calc_expected_average_stable_borrow_rate, calc_expected_user_stable_rate,
}
use lend_core.Rates.Fixed as Formula
use lend_core.Rates.Fixed.{Strategy, IsValid}
use lend_core.Rates.Values.{
  calc_expected_usage_ratios-pos, usage_ratio_antitone, calc_expected_overall_borrow_rate-pos,
}

pub usage_ratio-le-ray : (debt liquidity : ℕ) → Formula.usage_ratio debt liquidity ≤ ray
unfolding Formula.usage_ratio
usage_ratio-le-ray debt liquidity = ground (arith, Fixed.div-le-ray debt (liquidity + debt))

whole-div : (debt : ℕ) → 0 < debt → Fixed.div debt debt ≡ ray
unfolding Fixed.div
whole-div debt p =
    let least = le_quotient ray (debt / 2 + debt * ray) debt p (omega arith) in
    let most = Fixed.div-le-ray debt debt p (omega arith) in omega arith

whole_of : (debt : ℕ) → 0 < debt → Fixed.div debt (0 + debt) ≡ ray
whole_of debt p = let whole : 0 + debt ≡ debt = omega arith in rw whole (whole-div debt p)

-- A weighted mean, rounded down, lies between the two values.
mean_bounds :
    (a b u v lo hi : ℕ)
    → 0 < u + v
    → lo ≤ a
    → lo ≤ b
    → a ≤ hi
    → b ≤ hi
    → (lo ≤ (a * u + b * v) / (u + v)) × ((a * u + b * v) / (u + v) ≤ hi)
mean_bounds a b u v lo hi p la lb ah bh =
    let low_a = mul-le-mul_right u la in
    let low_b = mul-le-mul_right v lb in
    let high_a = mul-le-mul_right u ah in
    let high_b = mul-le-mul_right v bh in
    (
      le_quotient lo (a * u + b * v) (u + v) p (omega arith),
      quotient_le hi (a * u + b * v) (u + v) p (omega arith),
    )

-- The rounding of the overall rate: half a unit for each product and for the quotient.
overall_le :
    (stable variable variable_rate stable_rate hi : ℕ)
    → variable_rate ≤ hi
    → stable_rate ≤ hi
    → 0 < stable + variable
    → Formula.overall_borrow_rate stable variable variable_rate stable_rate
        * ((stable + variable) * wad_ray_ratio)
      ≤ (hi + 1) * ((stable + variable) * wad_ray_ratio) + ray
unfolding Formula.overall_borrow_rate
overall_le stable variable variable_rate stable_rate hi h k p =
    let v = Fixed.mul_bounds (variable * wad_ray_ratio) variable_rate in
    let s = Fixed.mul_bounds (stable * wad_ray_ratio) stable_rate in
    let sum =
      Fixed.mul (variable * wad_ray_ratio) variable_rate
      + Fixed.mul (stable * wad_ray_ratio) stable_rate in
    let q = Fixed.div_bounds sum ((stable + variable) * wad_ray_ratio) (omega arith) in
    let weight_v = mul-le-mul_left variable h in
    let weight_s = mul-le-mul_left stable k in rw (pos→== (stable + variable) p) (omega arith)

module _ ⦃big : BigNumberApi⦄ (doc : Documented big) where
  -- With at least as much total liquidity as available liquidity the usage ratios are returned:
  -- the assertion of the code holds. The supply ratio is at most the borrow ratio, which is at most
  -- one ray; without debt both are 0, and with debt and no liquidity the borrow ratio is one ray.
  pub usage_ratios_bounds :
      (stable variable available total : ℕ)
      → available ≤ total
      → (b s : ℕ) × (calc_expected_usage_ratios
            (pos stable)
            (pos variable)
            (pos available)
            (pos total)
          ≡ ok (pos b, pos s))
        × (s ≤ b)
        × (b ≤ ray)
        × (stable + variable ≡ 0 → (b ≡ 0) × (s ≡ 0))
        × (available ≡ 0 → 0 < stable + variable → b ≡ ray)
  usage_ratios_bounds stable variable available total h = rw (Documented-integers big doc) (
    Formula.usage_ratio (stable + variable) available,
    Formula.usage_ratio (stable + variable) total,
    calc_expected_usage_ratios-pos stable variable available total h,
    usage_ratio_antitone (stable + variable) available total h,
    usage_ratio-le-ray (stable + variable) available,
    (λ e. rw e (no_debt available, no_debt total)),
    (λ e p. rw e (all_borrowed (stable + variable) p)),
  )
    where
      no_debt : (l : ℕ) → Formula.usage_ratio 0 l ≡ 0
      no_debt l = unfold Formula.usage_ratio in refl

      all_borrowed : (debt : ℕ) → 0 < debt → Formula.usage_ratio debt 0 ≡ ray
      all_borrowed debt p = unfold Formula.usage_ratio in ground (arith, whole_of debt p)

  -- The overall borrow rate is returned for all debts and rates. It is 0 without debt; otherwise
  -- it is at most one unit above any bound of both rates, up to one ray over the debt in rays.
  pub overall_borrow_rate_bounds :
      (stable variable variable_rate stable_rate hi : ℕ)
      → variable_rate ≤ hi
      → stable_rate ≤ hi
      → (r : ℕ) × (calc_expected_overall_borrow_rate
            (pos stable)
            (pos variable)
            (pos variable_rate)
            (pos stable_rate)
          ≡ ok (pos r))
        × (stable + variable ≡ 0 → r ≡ 0)
        × (0 < stable + variable
            → r * ((stable + variable) * wad_ray_ratio)
              ≤ (hi + 1) * ((stable + variable) * wad_ray_ratio) + ray)
  unfolding Formula.overall_borrow_rate
  overall_borrow_rate_bounds stable variable variable_rate stable_rate hi h k =
      rw (Documented-integers big doc) (
        _,
        calc_expected_overall_borrow_rate-pos stable variable variable_rate stable_rate,
        (λ e. rw e refl),
        overall_le stable variable variable_rate stable_rate hi h k,
      )

  -- A borrow moves an average stable rate, of the reserve or of the user, to a value between the
  -- old average and the rate of the new debt, both included.
  pub average_rates_between :
      (average debt amount rate lo hi : ℕ)
      → 0 < debt + amount
      → lo ≤ average
      → lo ≤ rate
      → average ≤ hi
      → rate ≤ hi
      → (r : ℕ) × (calc_expected_average_stable_borrow_rate
            (pos average)
            (pos debt)
            (pos amount)
            (pos rate)
          ≡ ok (pos r))
        × (calc_expected_user_stable_rate (pos debt) (pos average) (pos amount) (pos rate)
            ≡ ok (pos r))
        × (lo ≤ r)
        × (r ≤ hi)
  unfolding calc_expected_average_stable_borrow_rate calc_expected_user_stable_rate
  average_rates_between average debt amount rate lo hi p la lr ah rh =
      let bounds = mean_bounds average rate debt amount lo hi p la lr ah rh in
      let flipped : debt * average + amount * rate ≡ average * debt + rate * amount = omega arith in
      rw (Documented-integers big doc) (
        (average * debt + rate * amount) / (debt + amount),
        rw (pos→== (debt + amount) p),
        rw (pos→== (debt + amount) p, flipped),
        bounds.0,
        bounds.1,
      )
