-- ===== src/Rates/Fixed.antt =====
-- The rates on natural numbers.
use lend_core.Prelude.{ℕ, ◌+◌, ◌-◌, ◌*◌, ◌<◌, ◌==◌, ltb, if◌then◌else◌}
use lend_core.Constants.{ray, wad_ray_ratio, percentage_factor}
use lend_core.WadRay.Fixed

-- The strategy of a reserve, and what the deployment scripts give it: every parameter is a
-- positive or zero number of rays.
pub record Strategy : Type 0 where
  pub optimal_usage_ratio : ℕ
  pub base_variable_borrow_rate : ℕ
  pub variable_rate_slope1 : ℕ
  pub variable_rate_slope2 : ℕ
  pub stable_rate_slope1 : ℕ
  pub stable_rate_slope2 : ℕ
  pub base_stable_rate_offset : ℕ
  pub stable_rate_excess_offset : ℕ
  pub optimal_stable_to_total_debt_ratio : ℕ

-- Both optima leave a range above them, and there is a range below the optimal usage.
pub record IsValid (s : Strategy) : Type 0 where
  pub optimum_pos : 0 < s.optimal_usage_ratio
  pub optimum_lt : s.optimal_usage_ratio < ray
  pub share_lt : s.optimal_stable_to_total_debt_ratio < ray

unfoldable pub usage_ratio : ℕ → ℕ → ℕ
usage_ratio debt liquidity = if debt == 0 then 0 else Fixed.div debt (liquidity + debt)

unfoldable pub overall_borrow_rate : ℕ → ℕ → ℕ → ℕ → ℕ
overall_borrow_rate stable_debt variable_debt variable_rate stable_rate =
    if stable_debt + variable_debt == 0
    then 0
    else Fixed.div
        (Fixed.mul (variable_debt * wad_ray_ratio) variable_rate
          + Fixed.mul (stable_debt * wad_ray_ratio) stable_rate)
        ((stable_debt + variable_debt) * wad_ray_ratio)

-- What the usage adds to a rate with two slopes.
unfoldable pub with_usage : ℕ → ℕ → ℕ → ℕ → ℕ → ℕ
with_usage optimum slope1 slope2 usage rate =
    if ltb optimum usage
    then rate + slope1 + Fixed.mul slope2 (Fixed.div (usage - optimum) (ray - optimum))
    else rate + Fixed.div (Fixed.mul slope1 usage) optimum

-- The share of the stable debt.
unfoldable pub stable_share : ℕ → ℕ → ℕ
stable_share stable_debt debt = if ltb 0 stable_debt then Fixed.div stable_debt debt else 0

-- The premium for a share of stable debt above its optimum.
unfoldable pub with_offset : ℕ → ℕ → ℕ → ℕ → ℕ
with_offset optimum offset share rate =
    if ltb optimum share
    then rate + Fixed.mul offset (Fixed.div (share - optimum) (ray - optimum))
    else rate

module _ (s : Strategy) (stable_debt variable_debt : ℕ) where
  unfoldable pub variable_rate : ℕ → ℕ
  variable_rate available =
      with_usage s.optimal_usage_ratio s.variable_rate_slope1 s.variable_rate_slope2
        (usage_ratio (stable_debt + variable_debt) available) s.base_variable_borrow_rate

  unfoldable pub stable_rate : ℕ → ℕ → ℕ
  stable_rate market_rate available =
      with_offset s.optimal_stable_to_total_debt_ratio s.stable_rate_excess_offset
        (stable_share stable_debt (stable_debt + variable_debt))
        (with_usage s.optimal_usage_ratio s.stable_rate_slope1 s.stable_rate_slope2
          (usage_ratio (stable_debt + variable_debt) available) market_rate)

  -- The part of the interest that goes to the suppliers.
  unfoldable pub liquidity_rate : ℕ → ℕ → ℕ → ℕ → ℕ
  liquidity_rate reserve_factor average available total =
      Fixed.percent
        (Fixed.mul (overall_borrow_rate stable_debt variable_debt (variable_rate available) average)
          (usage_ratio (stable_debt + variable_debt) total))
        (percentage_factor - reserve_factor)
