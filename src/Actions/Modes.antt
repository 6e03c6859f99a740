-- ===== src/Actions/Modes.antt =====
-- test-suites/helpers/actions.ts: `setUseAsCollateral`, `swapBorrowRateMode` and
-- `rebalanceStableBorrowRate`.
use Prim.Native.String.{String}
use package.text.Mathlib.Text.{◌==◌ as str_eq}
use lend_core.Prelude.{none}
use lend_core.Prelude.Run.{Run, ◌>>=◌, ◌>>◌, view, pure}
use lend_core.BigNumber.{BigNumberApi}
use lend_core.Types.{RateMode}
use lend_core.Reserve.Swap.{
  calc_expected_reserve_data_after_swap_rate_mode,
  calc_expected_reserve_data_after_stable_rate_rebalance,
}
use lend_core.User.Supply.{calc_expected_user_data_after_set_use_as_collateral}
use lend_core.User.Debt.{
  calc_expected_user_data_after_swap_rate_mode, calc_expected_user_data_after_stable_rate_rebalance,
}
use lend_core.Chain.{Call}
use lend_core.Chain.Reading.{get_contracts_data}
use lend_core.Actions.{
  Suite, submit, await_mined, expect_reverted, by_expected_result, get_tx_cost_and_timestamp,
  expect_reserve, expect_user,
}

module _ ⦃big : BigNumberApi⦄ (suite : Suite) where
  open suite use {chain, ethers, reserves_params}

  unfoldable pub set_use_as_collateral :
      String → String → String → String → Run chain.State (Unit {0})
  unfolding submit await_mined expect_reverted by_expected_result get_contracts_data
      get_tx_cost_and_timestamp calc_expected_user_data_after_set_use_as_collateral expect_user
  set_use_as_collateral reserve_symbol user use_as_collateral expected_result = do
    reserve ← view (chain.reserve_address reserve_symbol)
    before ← view (get_contracts_data chain reserve user none)
    let is_true = str_eq (ethers.lower_case use_as_collateral) "true"
    let call = Call.set_user_use_reserve_as_collateral user reserve is_true
    by_expected_result expected_result
        (do
          outcome ← submit suite call
          tx_result ← await_mined outcome
          costs ← get_tx_cost_and_timestamp suite tx_result
          after ← view (get_contracts_data chain reserve user none)
          expect_user suite after.user_data (
              calc_expected_user_data_after_set_use_as_collateral is_true before.reserve_data
                before.user_data))
        (do outcome ← submit suite call; expect_reverted outcome)

  unfoldable pub swap_borrow_rate_mode :
      String → String → RateMode → String → Run chain.State (Unit {0})
  unfolding submit await_mined expect_reverted by_expected_result get_contracts_data
      get_tx_cost_and_timestamp calc_expected_reserve_data_after_swap_rate_mode
      calc_expected_user_data_after_swap_rate_mode expect_reserve expect_user
  swap_borrow_rate_mode reserve_symbol user rate_mode expected_result = do
    reserve ← view (chain.reserve_address reserve_symbol)
    before ← view (get_contracts_data chain reserve user none)
    by_expected_result expected_result
        (do
          outcome ← submit suite (Call.swap_borrow_rate_mode user reserve rate_mode)
          tx_result ← await_mined outcome
          (tx_cost, tx_timestamp) ← get_tx_cost_and_timestamp suite tx_result
          after ← view (get_contracts_data chain reserve user none)
          expected_reserve ← pure (
              calc_expected_reserve_data_after_swap_rate_mode reserves_params before.reserve_data
                before.user_data rate_mode tx_timestamp)
          expected_user ← pure (
              calc_expected_user_data_after_swap_rate_mode before.reserve_data expected_reserve
                before.user_data rate_mode tx_timestamp)
          expect_reserve suite after.reserve_data expected_reserve
          expect_user suite after.user_data expected_user)
        (do
          outcome ← submit suite (Call.swap_borrow_rate_mode user reserve rate_mode)
          expect_reverted outcome)

  unfoldable pub rebalance_stable_borrow_rate :
      String → String → String → String → Run chain.State (Unit {0})
  unfolding submit await_mined expect_reverted by_expected_result get_contracts_data
      get_tx_cost_and_timestamp calc_expected_reserve_data_after_stable_rate_rebalance
      calc_expected_user_data_after_stable_rate_rebalance expect_reserve expect_user
  rebalance_stable_borrow_rate reserve_symbol user target expected_result = do
    reserve ← view (chain.reserve_address reserve_symbol)
    before ← view (get_contracts_data chain reserve target none)
    by_expected_result expected_result
        (do
          outcome ← submit suite (Call.rebalance_stable_borrow_rate user reserve target)
          tx_result ← await_mined outcome
          (tx_cost, tx_timestamp) ← get_tx_cost_and_timestamp suite tx_result
          after ← view (get_contracts_data chain reserve target none)
          expected_reserve ← pure (
              calc_expected_reserve_data_after_stable_rate_rebalance reserves_params
                before.reserve_data before.user_data tx_timestamp)
          expected_user ← pure (
              calc_expected_user_data_after_stable_rate_rebalance before.reserve_data
                expected_reserve before.user_data tx_timestamp)
          expect_reserve suite after.reserve_data expected_reserve
          expect_user suite after.user_data expected_user)
        (do
          outcome ← submit suite (Call.rebalance_stable_borrow_rate user reserve target)
          expect_reverted outcome)
