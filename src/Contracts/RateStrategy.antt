-- ===== src/Contracts/RateStrategy.antt =====
-- contracts/protocol/pool/DefaultReserveInterestRateStrategy.sol. The balance of the hToken in the
-- underlying is an argument; the immutable parameters are those of a strategy.
use lend_core.Prelude.{ℕ, ◌-◌, ◌==◌, ltb, Option, some, if◌then◌else◌}
use lend_core.Constants.{ray, percentage_factor}
use lend_core.Rates.Fixed.{Strategy}
use lend_core.Contracts.Words.{checked_add, checked_sub, ◌>>=◌}
use lend_core.Contracts.WadRayMath
use lend_core.Contracts.PercentageMath

-- `DataTypes.CalculateInterestRatesParams`, with the balance instead of the two addresses
pub record CalculateInterestRatesParams : Type 0 where
  pub unbacked : ℕ
  pub liquidity_added : ℕ
  pub liquidity_taken : ℕ
  pub total_stable_debt : ℕ
  pub total_variable_debt : ℕ
  pub average_stable_borrow_rate : ℕ
  pub reserve_factor : ℕ
  pub balance : ℕ

unfoldable pub get_base_stable_borrow_rate : Strategy → Option ℕ
get_base_stable_borrow_rate s = checked_add s.variable_rate_slope1 s.base_stable_rate_offset

-- The ratio of the stable debt, and the borrow and the supply usage ratio.
unfoldable pub debt_ratios : CalculateInterestRatesParams → ℕ → Option (ℕ × ℕ × ℕ)
debt_ratios p total_debt = if total_debt == 0 then some (0, 0, 0) else (do
  stable_to_total_debt_ratio ← WadRayMath.ray_div p.total_stable_debt total_debt
  with_added ← checked_add p.balance p.liquidity_added
  available_liquidity ← checked_sub with_added p.liquidity_taken
  available_liquidity_plus_debt ← checked_add available_liquidity total_debt
  borrow_usage_ratio ← WadRayMath.ray_div total_debt available_liquidity_plus_debt
  with_unbacked ← checked_add available_liquidity_plus_debt p.unbacked
  supply_usage_ratio ← WadRayMath.ray_div total_debt with_unbacked
  some (stable_to_total_debt_ratio, borrow_usage_ratio, supply_usage_ratio))

-- `rate += slope1 + slope2.rayMul(excess)`
unfoldable pub add_excess : ℕ → ℕ → ℕ → ℕ → Option ℕ
add_excess rate slope1 slope2 excess = do
  product ← WadRayMath.ray_mul slope2 excess
  slope ← checked_add slope1 product
  checked_add rate slope

-- `rate += slope1.rayMul(ratio).rayDiv(OPTIMAL_USAGE_RATIO)`
unfoldable pub add_slope : ℕ → ℕ → ℕ → ℕ → Option ℕ
add_slope rate slope1 ratio optimum = do
  product ← WadRayMath.ray_mul slope1 ratio
  slope ← WadRayMath.ray_div product optimum
  checked_add rate slope

-- The stable and the variable rate with the part that the usage adds.
unfoldable pub usage_rates : Strategy → ℕ → ℕ → ℕ → Option (ℕ × ℕ)
unfolding add_excess add_slope
usage_rates s borrow_usage_ratio stable_rate variable_rate =
    if ltb s.optimal_usage_ratio borrow_usage_ratio
    then (do
      above ← checked_sub borrow_usage_ratio s.optimal_usage_ratio
      excess ← WadRayMath.ray_div above (ray - s.optimal_usage_ratio)
      stable ← add_excess stable_rate s.stable_rate_slope1 s.stable_rate_slope2 excess
      variable ← add_excess variable_rate s.variable_rate_slope1 s.variable_rate_slope2 excess
      some (stable, variable))
    else (do
      stable ← add_slope stable_rate s.stable_rate_slope1 borrow_usage_ratio s.optimal_usage_ratio
      variable ←
          add_slope variable_rate s.variable_rate_slope1 borrow_usage_ratio s.optimal_usage_ratio
      some (stable, variable))

unfoldable pub offset_rate : Strategy → ℕ → ℕ → Option ℕ
offset_rate s stable_to_total_debt_ratio stable_rate =
    if ltb s.optimal_stable_to_total_debt_ratio stable_to_total_debt_ratio
    then (do
      above ← checked_sub stable_to_total_debt_ratio s.optimal_stable_to_total_debt_ratio
      excess ← WadRayMath.ray_div above (ray - s.optimal_stable_to_total_debt_ratio)
      offset ← WadRayMath.ray_mul s.stable_rate_excess_offset excess
      checked_add stable_rate offset)
    else some stable_rate

unfoldable pub get_overall_borrow_rate : ℕ → ℕ → ℕ → ℕ → Option ℕ
get_overall_borrow_rate stable_debt variable_debt variable_rate stable_rate = do
  total_debt ← checked_add stable_debt variable_debt
  if total_debt == 0 then some 0 else (do
    variable_wads ← WadRayMath.wad_to_ray variable_debt
    weighted_variable_rate ← WadRayMath.ray_mul variable_wads variable_rate
    stable_wads ← WadRayMath.wad_to_ray stable_debt
    weighted_stable_rate ← WadRayMath.ray_mul stable_wads stable_rate
    weighted ← checked_add weighted_variable_rate weighted_stable_rate
    debt_wads ← WadRayMath.wad_to_ray total_debt
    WadRayMath.ray_div weighted debt_wads)

-- The liquidity rate, the stable rate and the variable rate.
unfoldable pub calculate_interest_rates :
    Strategy → CalculateInterestRatesParams → Option (ℕ × ℕ × ℕ)
unfolding get_base_stable_borrow_rate debt_ratios usage_rates offset_rate get_overall_borrow_rate
calculate_interest_rates s p = do
  total_debt ← checked_add p.total_stable_debt p.total_variable_debt
  base_stable_rate ← get_base_stable_borrow_rate s
  (stable_share, borrow_usage_ratio, supply_usage_ratio) ← debt_ratios p total_debt
  (used_stable_rate, variable_rate) ←
      usage_rates s borrow_usage_ratio base_stable_rate s.base_variable_borrow_rate
  stable_rate ← offset_rate s stable_share used_stable_rate
  overall ←
      get_overall_borrow_rate p.total_stable_debt p.total_variable_debt variable_rate
        p.average_stable_borrow_rate
  supplied ← WadRayMath.ray_mul overall supply_usage_ratio
  to_suppliers ← checked_sub percentage_factor p.reserve_factor
  liquidity_rate ← PercentageMath.percent_mul supplied to_suppliers
  some (liquidity_rate, stable_rate, variable_rate)
