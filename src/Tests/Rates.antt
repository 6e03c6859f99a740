-- ===== src/Tests/Rates.antt =====
-- The theorems about the rates at concrete inputs.
use lend_core.BigNumber.{integers, integers-Documented}
use lend_core.Constants.{ray, wad_ray_ratio}
use lend_core.Contracts.RateStrategy.{
  add_excess, add_slope, calculate_interest_rates, debt_ratios, get_base_stable_borrow_rate,
  get_overall_borrow_rate, offset_rate, usage_rates,
}
use lend_core.Contracts.StrategyAgreement.{available_of, interest_rates_agree}
use lend_core.Prelude.{arith, refl, some, ℕ, ◌*◌, ◌+◌, ◌<◌, ◌≡◌, ◌≤◌}
use lend_core.Prelude.Int.{pos}
use lend_core.Prelude.Result.{ok}
use lend_core.Rates.{
  calc_expected_average_stable_borrow_rate, calc_expected_interest_rates,
  calc_expected_overall_borrow_rate, calc_expected_usage_ratios, calc_expected_user_stable_rate,
}
use lend_core.Rates.Bounds.{average_rates_between, overall_borrow_rate_bounds, usage_ratios_bounds}
use lend_core.Rates.Floor.{interest_rates_floor}
use lend_core.Tests.Data.{
  five_percent, liquidity, pool_state, reserves_params, six_percent, strategy,
  strategy-IsConfigured, strategy-IsValid,
}
use lend_core.Contracts.PercentageMath
use lend_core.Contracts.WadRayMath

abbrev contract_liquidity_rate : ℕ
contract_liquidity_rate = 12604705043661290322580645

abbrev contract_stable_rate : ℕ
contract_stable_rate = 81987223756906077348066299

abbrev contract_variable_rate : ℕ
contract_variable_rate = 22099447513812154696132596

interest_rates_agree_example :
    calc_expected_interest_rates reserves_params
      (some "DAI")
      (pos (strategy.variable_rate_slope1 + strategy.base_stable_rate_offset))
      (pos pool_state.total_stable_debt)
      (pos pool_state.total_variable_debt)
      (pos pool_state.average_stable_borrow_rate)
      (pos (available_of pool_state))
      (pos (available_of pool_state + pool_state.unbacked))
    ≡ ok (record {
      liquidity_rate = pos contract_liquidity_rate;
      stable_borrow_rate = pos contract_stable_rate;
      variable_borrow_rate = pos contract_variable_rate;
    })
unfolding calculate_interest_rates get_base_stable_borrow_rate debt_ratios usage_rates add_excess
    add_slope offset_rate get_overall_borrow_rate WadRayMath.ray_mul WadRayMath.ray_div
    WadRayMath.wad_to_ray PercentageMath.percent_mul
interest_rates_agree_example =
    interest_rates_agree ⦃big = integers⦄ integers-Documented "rateStrategyStableOne" "DAI"
      reserves_params strategy pool_state contract_liquidity_rate contract_stable_rate
      contract_variable_rate strategy-IsValid strategy-IsConfigured (omega arith) refl

usage_ratios_bounds_example :
    (b s : ℕ) × (calc_expected_usage_ratios (pos 300) (pos 500) (pos liquidity) (pos 1200)
      ≡ ok (pos b, pos s))
    × (s ≤ b)
    × (b ≤ ray)
    × (300 + 500 ≡ 0 → (b ≡ 0) × (s ≡ 0))
    × (liquidity ≡ 0 → 0 < 300 + 500 → b ≡ ray)
usage_ratios_bounds_example =
    usage_ratios_bounds ⦃big = integers⦄ integers-Documented 300 500 liquidity 1200 (omega arith)

interest_rates_floor_example :
    (l st v : ℕ) × (calc_expected_interest_rates reserves_params
        (some "DAI")
        (pos liquidity)
        (pos 300)
        (pos 500)
        (pos five_percent)
        (pos liquidity)
        (pos 1200)
      ≡ ok (record {
        liquidity_rate = pos l;
        stable_borrow_rate = pos st;
        variable_borrow_rate = pos v;
      }))
    × (strategy.base_variable_borrow_rate ≤ v)
    × (liquidity ≤ st)
    × (300 + 500 ≡ 0 → v ≡ strategy.base_variable_borrow_rate)
interest_rates_floor_example =
    interest_rates_floor ⦃big = integers⦄ integers-Documented "rateStrategyStableOne" "DAI"
      reserves_params strategy 1000 liquidity 300 500 five_percent liquidity 1200 strategy-IsValid
      strategy-IsConfigured (omega arith) (omega arith)

overall_borrow_rate_bounds_example :
    (r : ℕ) × (calc_expected_overall_borrow_rate
        (pos 300)
        (pos 500)
        (pos five_percent)
        (pos six_percent)
      ≡ ok (pos r))
    × (300 + 500 ≡ 0 → r ≡ 0)
    × (0 < 300 + 500
        → r * ((300 + 500) * wad_ray_ratio)
          ≤ (six_percent + 1) * ((300 + 500) * wad_ray_ratio) + ray)
overall_borrow_rate_bounds_example =
    overall_borrow_rate_bounds ⦃big = integers⦄ integers-Documented 300 500 five_percent six_percent
      six_percent (omega arith) (omega arith)

average_rates_between_example :
    (r : ℕ) × (calc_expected_average_stable_borrow_rate
        (pos five_percent)
        (pos 300)
        (pos 100)
        (pos six_percent)
      ≡ ok (pos r))
    × (calc_expected_user_stable_rate (pos 300) (pos five_percent) (pos 100) (pos six_percent)
        ≡ ok (pos r))
    × (five_percent ≤ r)
    × (r ≤ six_percent)
average_rates_between_example =
    average_rates_between ⦃big = integers⦄ integers-Documented five_percent 300 100 six_percent
      five_percent six_percent (omega arith) (omega arith) (omega arith) (omega arith) (omega arith)
