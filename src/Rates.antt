-- ===== src/Rates.antt =====
-- test-suites/helpers/utils/calculations.ts: usage ratios, average rates and the interest rate
-- strategy.
pub mod Fixed
pub mod Values
pub mod Bounds
pub mod Floor
use Prim.Native.String.{String}
use text.Mathlib.Text.{◌==◌ as str_eq}
use lend_core.Prelude.{ℕ, Bool, Option, none, some, List, [], ◌∷◌, if◌then◌else◌}
use lend_core.Prelude.Int.{ℤ, pos}
use lend_core.Prelude.Result.{Result, ok, ◌>>=◌, ◌>>◌, defined, expect}
use lend_core.BigNumber.{BigNumberApi}
use lend_core.Types.{ReserveParams, Configuration, InterestRateStrategyParams}
use lend_core.WadRay.{ray, percentage_factor, ray_mul, ray_div, percent_mul, wad_to_ray}

-- `Object.entries(reservesParams)` at the index of the first key that is the symbol; an index of
-- -1 finds `undefined`.
unfoldable pub find_reserve : Option String → Configuration → Option ReserveParams
find_reserve none reserves_params = none
find_reserve (some symbol) [] = none
find_reserve (some symbol) ((key, params) ∷ rest) =
    if str_eq key symbol then some params else find_reserve (some symbol) rest

-- The three rates in the order of the array that the code returns.
pub record Rates : Type 0 where
  pub liquidity_rate : ℤ
  pub stable_borrow_rate : ℤ
  pub variable_borrow_rate : ℤ

module _ ⦃big : BigNumberApi⦄ where
  open big use {add, sub, mul, div, eq, gt, lte}

  -- A ratio of the total debt to a whole, 0 without debt.
  unfoldable pub usage_ratio : ℤ → ℤ → Result ℤ
  usage_ratio total_debt liquidity =
      if eq total_debt (pos 0) then ok (pos 0) else ray_div total_debt (add liquidity total_debt)

  -- The borrow usage ratio and the supply usage ratio.
  unfoldable pub calc_expected_usage_ratios : ℤ → ℤ → ℤ → ℤ → Result (ℤ × ℤ)
  unfolding usage_ratio
  calc_expected_usage_ratios total_stable_debt total_variable_debt available_liquidity
        total_liquidity =
      do
        let total_debt = add total_stable_debt total_variable_debt
        borrow_usage_ratio ← usage_ratio total_debt available_liquidity
        supply_usage_ratio ← usage_ratio total_debt total_liquidity
        expect (lte supply_usage_ratio borrow_usage_ratio)
        ok (borrow_usage_ratio, supply_usage_ratio)

  unfoldable pub calc_expected_overall_borrow_rate : ℤ → ℤ → ℤ → ℤ → Result ℤ
  calc_expected_overall_borrow_rate total_stable_debt total_variable_debt
        current_variable_borrow_rate current_average_stable_borrow_rate =
      let total_borrows = add total_stable_debt total_variable_debt in
      if eq total_borrows (pos 0) then ok (pos 0) else do
        weighted_variable_rate ←
            ray_mul (wad_to_ray total_variable_debt) current_variable_borrow_rate
        weighted_stable_rate ←
            ray_mul (wad_to_ray total_stable_debt) current_average_stable_borrow_rate
        ray_div (add weighted_variable_rate weighted_stable_rate) (wad_to_ray total_borrows)

  unfoldable pub calc_expected_average_stable_borrow_rate : ℤ → ℤ → ℤ → ℤ → Result ℤ
  calc_expected_average_stable_borrow_rate avg_stable_rate_before total_stable_debt_before
        amount_changed rate =
      let weighted_total_borrows = mul avg_stable_rate_before total_stable_debt_before in
      let weighted_amount_borrowed = mul rate amount_changed in
      let total_borrowed_stable = add total_stable_debt_before amount_changed in
      if eq total_borrowed_stable (pos 0)
      then ok (pos 0)
      else div (add weighted_total_borrows weighted_amount_borrowed) total_borrowed_stable

  unfoldable pub calc_expected_average_stable_borrow_rate_rebalance : ℤ → ℤ → ℤ → ℤ → Result ℤ
  calc_expected_average_stable_borrow_rate_rebalance avg_stable_rate_before total_stable_debt_before
        amount_changed rate =
      do
        weighted_total_borrows ← ray_mul avg_stable_rate_before total_stable_debt_before
        weighted_amount_borrowed ← ray_mul rate (wad_to_ray amount_changed)
        let total_borrowed_stable = add total_stable_debt_before (wad_to_ray amount_changed)
        if eq total_borrowed_stable (pos 0)
            then ok (pos 0)
            else ray_div (add weighted_total_borrows weighted_amount_borrowed) total_borrowed_stable

  unfoldable pub calc_expected_user_stable_rate : ℤ → ℤ → ℤ → ℤ → Result ℤ
  calc_expected_user_stable_rate balance_before rate_before amount rate_new =
      div (add (mul balance_before rate_before) (mul amount rate_new)) (add balance_before amount)

  -- The stable and the variable rate with the part that the usage of the reserve adds.
  unfoldable pub add_usage_slopes : InterestRateStrategyParams → ℤ → ℤ → ℤ → Result (ℤ × ℤ)
  add_usage_slopes strategy borrow_usage_ratio stable_borrow_rate variable_borrow_rate =
      let optimal_usage_ratio = strategy.optimal_usage_ratio in
      let max_excess_usage_ratio = sub ray optimal_usage_ratio in
      if gt borrow_usage_ratio optimal_usage_ratio
      then (do
        excess_borrow_usage_ratio ←
            ray_div (sub borrow_usage_ratio optimal_usage_ratio) max_excess_usage_ratio
        stable_excess ← ray_mul strategy.stable_rate_slope2 excess_borrow_usage_ratio
        variable_excess ← ray_mul strategy.variable_rate_slope2 excess_borrow_usage_ratio
        ok (
          add (add stable_borrow_rate strategy.stable_rate_slope1) stable_excess,
          add (add variable_borrow_rate strategy.variable_rate_slope1) variable_excess,
        ))
      else do
        stable_part ← ray_mul strategy.stable_rate_slope1 borrow_usage_ratio
        stable_slope ← ray_div stable_part optimal_usage_ratio
        variable_part ← ray_mul strategy.variable_rate_slope1 borrow_usage_ratio
        variable_slope ← ray_div variable_part optimal_usage_ratio
        ok (add stable_borrow_rate stable_slope, add variable_borrow_rate variable_slope)

  -- The stable rate with the premium for a share of stable debt above the optimum.
  unfoldable pub add_excess_offset : InterestRateStrategyParams → ℤ → ℤ → Result ℤ
  add_excess_offset strategy stable_to_total_debt_ratio stable_borrow_rate =
      let optimal_ratio = strategy.optimal_stable_to_total_debt_ratio in
      let max_excess_ratio = sub ray optimal_ratio in
      if gt stable_to_total_debt_ratio optimal_ratio
      then (do
        excess_stable_debt_ratio ←
            ray_div (sub stable_to_total_debt_ratio optimal_ratio) max_excess_ratio
        offset ← ray_mul strategy.stable_rate_excess_offset excess_stable_debt_ratio
        ok (add stable_borrow_rate offset))
      else ok stable_borrow_rate

  unfoldable pub stable_share : ℤ → ℤ → Result ℤ
  stable_share total_stable_debt total_debt =
      if gt total_stable_debt (pos 0) then ray_div total_stable_debt total_debt else ok (pos 0)

  unfoldable pub calc_expected_interest_rates :
      Configuration → Option String → ℤ → ℤ → ℤ → ℤ → ℤ → ℤ → Result Rates
  calc_expected_interest_rates reserves_params reserve_symbol market_stable_rate total_stable_debt
        total_variable_debt average_stable_borrow_rate available_liquidity total_liquidity =
      do
        reserve_configuration ← defined (find_reserve reserve_symbol reserves_params)
        let strategy = reserve_configuration.strategy
        (borrow_usage_ratio, supply_usage_ratio) ←
            calc_expected_usage_ratios total_stable_debt total_variable_debt available_liquidity
              total_liquidity
        let total_debt = add total_stable_debt total_variable_debt
        stable_to_total_debt_ratio ← stable_share total_stable_debt total_debt
        (stable_with_usage, variable_borrow_rate) ←
            add_usage_slopes strategy borrow_usage_ratio market_stable_rate
              strategy.base_variable_borrow_rate
        stable_borrow_rate ← add_excess_offset strategy stable_to_total_debt_ratio stable_with_usage
        expected_overall_rate ←
            calc_expected_overall_borrow_rate total_stable_debt total_variable_debt
              variable_borrow_rate average_stable_borrow_rate
        supplied ← ray_mul expected_overall_rate supply_usage_ratio
        liquidity_rate ←
            percent_mul supplied (sub percentage_factor reserve_configuration.reserve_factor)
        ok (record {
          liquidity_rate = liquidity_rate;
          stable_borrow_rate = stable_borrow_rate;
          variable_borrow_rate = variable_borrow_rate;
        })
