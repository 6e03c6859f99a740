-- ===== src/Reserve/Swap.antt =====
-- The reserve after a user swaps the rate mode of a debt, and after a stable rate is rebalanced.
use lend_core.Prelude.{some}
use lend_core.Prelude.Int.{ℤ, pos}
use lend_core.Prelude.Result.{Result, ok, ◌>>=◌, defined}
use lend_core.BigNumber.{BigNumberApi}
use lend_core.Types.{ReserveData, UserReserveData, Configuration, RateMode}
use lend_core.WadRay.{ray_mul, ray_div, negated}
use lend_core.Interest.{
  calc_expected_total_stable_debt, calc_expected_stable_debt_token_balance,
  calc_expected_variable_debt_token_balance,
}
use lend_core.Rates.{
  calc_expected_average_stable_borrow_rate, calc_expected_average_stable_borrow_rate_rebalance,
}
use lend_core.State.{
  update_state, update_liquidity_and_usage_ratios, update_usage_ratios, update_interest_rates,
  update_total_liquidity_and_usage_ratio,
}
use lend_core.Reserve.Liquidity.{copied}
use lend_core.Reserve.Repay.{by_mode}

module _ ⦃big : BigNumberApi⦄ where
  open big use {add, sub}

  unfoldable pub swap_to_variable :
      ReserveData → UserReserveData → ReserveData → ℤ → Result ReserveData
  swap_to_variable before user_before moved stable_debt = do
    until_tx ← defined moved.total_stable_debt
    scaled_before ← defined before.scaled_variable_debt
    variable_borrow_index ← defined moved.variable_borrow_index
    scaled_added ← ray_div stable_debt variable_borrow_index
    let scaled_variable_debt = add scaled_before scaled_added
    total_variable_debt ← ray_mul scaled_variable_debt variable_borrow_index
    let principal = sub until_tx stable_debt
    average_before ← defined before.average_stable_borrow_rate
    user_rate ← defined user_before.stable_borrow_rate
    average ←
        calc_expected_average_stable_borrow_rate average_before (add principal stable_debt)
          (negated stable_debt) user_rate
    ok (record moved {
      scaled_variable_debt = some scaled_variable_debt;
      total_variable_debt = some total_variable_debt;
      principal_stable_debt = some principal;
      total_stable_debt = some principal;
      average_stable_borrow_rate = some average;
    })

  unfoldable pub swap_to_stable : ReserveData → ReserveData → ℤ → Result ReserveData
  swap_to_stable before moved variable_debt = do
    until_tx ← defined moved.total_stable_debt
    let principal = add until_tx variable_debt
    scaled_before ← defined before.scaled_variable_debt
    variable_borrow_index ← defined moved.variable_borrow_index
    scaled_removed ← ray_div variable_debt variable_borrow_index
    let scaled_variable_debt = sub scaled_before scaled_removed
    total_variable_debt ← ray_mul scaled_variable_debt variable_borrow_index
    average_before ← defined before.average_stable_borrow_rate
    total_stable_debt_before ← defined before.total_stable_debt
    stable_borrow_rate_before ← defined before.stable_borrow_rate
    average ←
        calc_expected_average_stable_borrow_rate average_before total_stable_debt_before
          variable_debt stable_borrow_rate_before
    ok (record moved {
      principal_stable_debt = some principal;
      total_stable_debt = some principal;
      scaled_variable_debt = some scaled_variable_debt;
      total_variable_debt = some total_variable_debt;
      average_stable_borrow_rate = some average;
    })

  -- The stable debt leaves the average at the user's old rate and comes back at the new one.
  unfoldable pub rebalanced :
      ReserveData → UserReserveData → ReserveData → ℤ → ℤ → Result ReserveData
  rebalanced before user_before moved user_stable_debt tx_timestamp = do
    principal_before ← defined before.principal_stable_debt
    average_before ← defined before.average_stable_borrow_rate
    last_updated ← defined before.total_stable_debt_last_updated
    total_stable_debt ←
        calc_expected_total_stable_debt principal_before average_before last_updated tx_timestamp
    user_rate ← defined user_before.stable_borrow_rate
    avg_rate_before ←
        calc_expected_average_stable_borrow_rate_rebalance average_before total_stable_debt
          (negated user_stable_debt) user_rate
    stable_borrow_rate_before ← defined before.stable_borrow_rate
    average ←
        calc_expected_average_stable_borrow_rate_rebalance avg_rate_before
          (sub total_stable_debt user_stable_debt) user_stable_debt stable_borrow_rate_before
    ok (record moved {
      principal_stable_debt = some total_stable_debt;
      total_stable_debt = some total_stable_debt;
      average_stable_borrow_rate = some average;
    })

module _ ⦃big : BigNumberApi⦄ (reserves_params : Configuration) where
  -- The common end of the two actions.
  unfoldable pub after_debt_change : ReserveData → ReserveData → Result ReserveData
  after_debt_change before changed = do
    ratioed ← update_usage_ratios changed
    rated ← update_interest_rates reserves_params before ratioed
    update_total_liquidity_and_usage_ratio rated

  unfoldable pub calc_expected_reserve_data_after_swap_rate_mode :
      ReserveData → UserReserveData → RateMode → ℤ → Result ReserveData
  unfolding swap_to_variable swap_to_stable after_debt_change
  calc_expected_reserve_data_after_swap_rate_mode before user_before rate_mode tx_timestamp = do
    updated ← update_state before (copied before) tx_timestamp
    moved ← update_liquidity_and_usage_ratios before updated (pos 0) (pos 0)
    variable_debt ← calc_expected_variable_debt_token_balance before user_before tx_timestamp
    user_principal ← defined user_before.principal_stable_debt
    user_rate ← defined user_before.stable_borrow_rate
    user_last_updated ← defined user_before.stable_rate_last_updated
    stable_debt ←
        calc_expected_stable_debt_token_balance user_principal user_rate user_last_updated
          tx_timestamp
    swapped ←
        by_mode rate_mode (swap_to_variable before user_before moved stable_debt)
          (swap_to_stable before moved variable_debt)
    after_debt_change before swapped

  unfoldable pub calc_expected_reserve_data_after_stable_rate_rebalance :
      ReserveData → UserReserveData → ℤ → Result ReserveData
  unfolding rebalanced after_debt_change
  calc_expected_reserve_data_after_stable_rate_rebalance before user_before tx_timestamp = do
    updated ← update_state before (copied before) tx_timestamp
    moved ← update_liquidity_and_usage_ratios before updated (pos 0) (pos 0)
    user_principal ← defined user_before.principal_stable_debt
    user_rate ← defined user_before.stable_borrow_rate
    user_last_updated ← defined user_before.stable_rate_last_updated
    user_stable_debt ←
        calc_expected_stable_debt_token_balance user_principal user_rate user_last_updated
          tx_timestamp
    changed ← rebalanced before user_before moved user_stable_debt tx_timestamp
    after_debt_change before changed
