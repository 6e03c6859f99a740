-- ===== src/Tests/Reserves.antt =====
-- The theorems about the reserves at concrete inputs.
use lend_core.BigNumber.{integers, integers-Documented}
use lend_core.Prelude.{arith, some, ℕ, ◌+◌, ◌-◌, ◌≡◌, ◌≤◌}
use lend_core.Prelude.Int.{pos}
use lend_core.Prelude.Result.{Ensures, ok}
use lend_core.Reserve.Borrow.{calc_expected_reserve_data_after_borrow}
use lend_core.Reserve.Bridge.{
  calc_expected_reserve_data_after_back_unbacked, calc_expected_reserve_data_after_mint_unbacked,
}
use lend_core.Reserve.Consistent.{IsConsistent, actions-IsConsistent}
use lend_core.Reserve.Liquidity.{
  calc_expected_reserve_data_after_deposit, calc_expected_reserve_data_after_withdraw,
}
use lend_core.Reserve.Repay.{calc_expected_reserve_data_after_repay}
use lend_core.Reserve.Supply.{deposit_returns, withdraw_returns}
use lend_core.Reserve.Swap.{
  calc_expected_reserve_data_after_stable_rate_rebalance,
  calc_expected_reserve_data_after_swap_rate_mode,
}
use lend_core.Snapshot.{reserve_of, user_of}
use lend_core.State.{update_state}
use lend_core.State.Growth.{update_state_grows}
use lend_core.Tests.Data.{
  account, reserve, reserve-IsSound, reserves_params, strategy, strategy-IsConfigured,
  strategy-IsValid,
}
use lend_core.Types.{RateMode, ReserveData, empty_reserve}
use lend_core.WadRay.{ray_mul}

update_state_grows_example :
    (i j stable variable before treasury : ℕ) × (update_state
        (reserve_of reserve)
        empty_reserve
        (pos 2000)
      ≡ ok (record empty_reserve {
        liquidity_index = some (pos i);
        variable_borrow_index = some (pos j);
        total_stable_debt = some (pos stable);
        total_variable_debt = some (pos variable);
        scaled_variable_debt = some (pos reserve.scaled_variable_debt);
        principal_stable_debt = some (pos reserve.principal_stable_debt);
        accrued_to_treasury_scaled = some (pos treasury);
      }))
    × (reserve.liquidity_index ≤ i)
    × (reserve.variable_borrow_index ≤ j)
    × (ray_mul (pos reserve.scaled_variable_debt) (pos reserve.variable_borrow_index)
        ≡ ok (pos before))
    × (before ≤ variable)
    × (reserve.accrued_to_treasury_scaled ≤ treasury)
    × (reserve.reserve_factor ≡ 0 → treasury ≡ reserve.accrued_to_treasury_scaled)
update_state_grows_example =
    update_state_grows ⦃big = integers⦄ integers-Documented reserve 2000 empty_reserve
      reserve-IsSound

deposit_returns_example :
    (r : ReserveData) × (i j t : ℕ) × (calc_expected_reserve_data_after_deposit reserves_params
        (pos 100)
        (reserve_of reserve)
        (pos 2000)
      ≡ ok r)
    × (r.available_liquidity ≡ some (pos (reserve.available_liquidity + 100)))
    × (r.total_liquidity ≡ some (pos (reserve.available_liquidity + 100 + reserve.unbacked)))
    × (r.liquidity_index ≡ some (pos i))
    × (reserve.liquidity_index ≤ i)
    × (r.variable_borrow_index ≡ some (pos j))
    × (reserve.variable_borrow_index ≤ j)
    × (r.accrued_to_treasury_scaled ≡ some (pos t))
    × (reserve.accrued_to_treasury_scaled ≤ t)
    × (r.scaled_variable_debt ≡ some (pos reserve.scaled_variable_debt))
    × (r.principal_stable_debt ≡ some (pos reserve.principal_stable_debt))
    × (r.average_stable_borrow_rate ≡ some (pos reserve.average_stable_borrow_rate))
deposit_returns_example =
    deposit_returns ⦃big = integers⦄ integers-Documented "rateStrategyStableOne" strategy
      strategy-IsValid reserves_params reserve 2000 strategy-IsConfigured (omega arith)
      reserve-IsSound 100

withdraw_returns_example :
    (r d : ReserveData) × (calc_expected_reserve_data_after_withdraw reserves_params
        (pos 100)
        (reserve_of reserve)
        (user_of account)
        (pos 2000)
      ≡ ok r)
    × (calc_expected_reserve_data_after_deposit reserves_params
          (pos 40)
          (reserve_of reserve)
          (pos 2000)
        ≡ ok d)
    × (r.available_liquidity ≡ some (pos (reserve.available_liquidity - 100)))
    × (r.total_liquidity ≡ some (pos (reserve.available_liquidity - 100 + reserve.unbacked)))
    × (r.liquidity_index ≡ d.liquidity_index)
    × (r.variable_borrow_index ≡ d.variable_borrow_index)
    × (r.total_stable_debt ≡ d.total_stable_debt)
    × (r.total_variable_debt ≡ d.total_variable_debt)
    × (r.accrued_to_treasury_scaled ≡ d.accrued_to_treasury_scaled)
withdraw_returns_example =
    withdraw_returns ⦃big = integers⦄ integers-Documented "rateStrategyStableOne" strategy
      strategy-IsValid reserves_params reserve 2000 strategy-IsConfigured (omega arith)
      reserve-IsSound (user_of account) 100 40 (omega arith) (omega arith)

actions-IsConsistent_example :
    Ensures IsConsistent (
      calc_expected_reserve_data_after_deposit reserves_params
        (pos 100)
        (reserve_of reserve)
        (pos 2000))
    × Ensures IsConsistent (
        calc_expected_reserve_data_after_withdraw reserves_params
          (pos 100)
          (reserve_of reserve)
          (user_of account)
          (pos 2000))
    × Ensures IsConsistent (
        calc_expected_reserve_data_after_mint_unbacked reserves_params
          (pos 100)
          (reserve_of reserve)
          (pos 2000))
    × Ensures IsConsistent (
        calc_expected_reserve_data_after_back_unbacked reserves_params
          (pos 2000)
          (pos 100)
          (pos 3)
          (pos 1000)
          (reserve_of reserve)
          (pos 2000))
    × Ensures IsConsistent (
        calc_expected_reserve_data_after_borrow reserves_params
          (pos 100)
          RateMode.stable
          (reserve_of reserve)
          (pos 2000)
          (pos 2100))
    × Ensures IsConsistent (
        calc_expected_reserve_data_after_repay reserves_params
          (pos 100)
          RateMode.stable
          (reserve_of reserve)
          (user_of account)
          (pos 2000))
    × Ensures IsConsistent (
        calc_expected_reserve_data_after_swap_rate_mode reserves_params
          (reserve_of reserve)
          (user_of account)
          RateMode.stable
          (pos 2000))
    × Ensures IsConsistent (
        calc_expected_reserve_data_after_stable_rate_rebalance reserves_params
          (reserve_of reserve)
          (user_of account)
          (pos 2000))
actions-IsConsistent_example =
    actions-IsConsistent ⦃big = integers⦄ reserves_params (pos 100) (pos 2000) (pos 3) (pos 1000)
      RateMode.stable (reserve_of reserve) (user_of account) (pos 2000) (pos 2100)
