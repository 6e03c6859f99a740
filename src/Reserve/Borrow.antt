-- ===== src/Reserve/Borrow.antt =====
-- The reserve after a borrow, at the time of the last block before it is looked at.
use lend_core.Prelude.{some}
use lend_core.Prelude.Int.{ℤ, pos}
use lend_core.Prelude.Result.{Result, ok, ◌>>=◌, defined}
use lend_core.BigNumber.{BigNumberApi}
use lend_core.Types.{ReserveData, Configuration, RateMode}
use lend_core.WadRay.{ray_mul, ray_div}
use lend_core.Interest.{
  calc_expected_total_stable_debt, calc_expected_stable_debt_token_balance,
  calc_expected_reserve_normalized_debt,
}
use lend_core.Rates.{calc_expected_average_stable_borrow_rate, calc_expected_interest_rates}
use lend_core.State.{update_state, update_liquidity_and_usage_ratios, update_usage_ratios}
use lend_core.Reserve.Liquidity.{copied}

module _ ⦃big : BigNumberApi⦄ (reserves_params : Configuration) where
  open big use {add}

  -- The rates of the given debts, with the liquidity of the object, written into it.
  unfoldable pub update_rates_for : ReserveData → ReserveData → ℤ → ℤ → Result ReserveData
  update_rates_for before expected total_stable_debt total_variable_debt = do
    market_stable_rate ← defined before.market_stable_rate
    average_stable_borrow_rate ← defined expected.average_stable_borrow_rate
    available_liquidity ← defined expected.available_liquidity
    total_liquidity ← defined expected.total_liquidity
    rates ←
        calc_expected_interest_rates reserves_params before.symbol market_stable_rate
          total_stable_debt total_variable_debt average_stable_borrow_rate available_liquidity
          total_liquidity
    ok (record expected {
      liquidity_rate = some rates.liquidity_rate;
      stable_borrow_rate = some rates.stable_borrow_rate;
      variable_borrow_rate = some rates.variable_borrow_rate;
    })

  -- The variable debt at the new rate, as it stands when the reserve is looked at.
  unfoldable pub variable_debt_at : ReserveData → ℤ → ℤ → ℤ → Result ℤ
  variable_debt_at expected scaled_variable_debt tx_timestamp current_timestamp = do
    variable_borrow_rate ← defined expected.variable_borrow_rate
    variable_borrow_index ← defined expected.variable_borrow_index
    normalized_debt ←
        calc_expected_reserve_normalized_debt variable_borrow_rate variable_borrow_index
          tx_timestamp current_timestamp
    ray_mul scaled_variable_debt normalized_debt

  unfoldable pub borrow_stable : ℤ → ReserveData → ReserveData → ℤ → ℤ → Result ReserveData
  unfolding update_rates_for variable_debt_at
  borrow_stable amount_borrowed before moved tx_timestamp current_timestamp = do
    principal_before ← defined before.principal_stable_debt
    average_before ← defined before.average_stable_borrow_rate
    last_updated ← defined before.total_stable_debt_last_updated
    until_tx ←
        calc_expected_total_stable_debt principal_before average_before last_updated tx_timestamp
    stable_borrow_rate_before ← defined before.stable_borrow_rate
    average ←
        calc_expected_average_stable_borrow_rate average_before until_tx amount_borrowed
          stable_borrow_rate_before
    let principal = add until_tx amount_borrowed
    let averaged = record moved {
      average_stable_borrow_rate = some average;
      principal_stable_debt = some principal;
    }
    total_variable_debt_at_tx ← defined averaged.total_variable_debt
    rated ← update_rates_for before averaged principal total_variable_debt_at_tx
    total_stable_debt ←
        calc_expected_total_stable_debt principal average tx_timestamp current_timestamp
    scaled_variable_debt_before ← defined before.scaled_variable_debt
    total_variable_debt ←
        variable_debt_at rated scaled_variable_debt_before tx_timestamp current_timestamp
    update_usage_ratios (record rated {
      total_stable_debt = some total_stable_debt;
      total_variable_debt = some total_variable_debt;
    })

  unfoldable pub borrow_variable : ℤ → ReserveData → ReserveData → ℤ → ℤ → Result ReserveData
  unfolding update_rates_for variable_debt_at
  borrow_variable amount_borrowed before moved tx_timestamp current_timestamp = do
    principal_before ← defined before.principal_stable_debt
    average_before ← defined before.average_stable_borrow_rate
    last_updated ← defined before.total_stable_debt_last_updated
    total_stable_debt_after_tx ←
        calc_expected_stable_debt_token_balance principal_before average_before last_updated
          tx_timestamp
    total_stable_debt ←
        calc_expected_total_stable_debt principal_before average_before last_updated
          current_timestamp
    scaled_before ← defined before.scaled_variable_debt
    variable_borrow_index ← defined moved.variable_borrow_index
    scaled_borrowed ← ray_div amount_borrowed variable_borrow_index
    let scaled_variable_debt = add scaled_before scaled_borrowed
    total_variable_debt_after_tx ← ray_mul scaled_variable_debt variable_borrow_index
    first ← update_usage_ratios (record moved {
      principal_stable_debt = before.principal_stable_debt;
      total_stable_debt = some total_stable_debt;
      average_stable_borrow_rate = before.average_stable_borrow_rate;
      scaled_variable_debt = some scaled_variable_debt;
    })
    rated ← update_rates_for before first total_stable_debt_after_tx total_variable_debt_after_tx
    total_variable_debt ← variable_debt_at rated scaled_variable_debt tx_timestamp current_timestamp
    update_usage_ratios (record rated { total_variable_debt = some total_variable_debt })

  unfoldable pub borrow_by_mode :
      RateMode → ℤ → ReserveData → ReserveData → ℤ → ℤ → Result ReserveData
  unfolding borrow_stable borrow_variable
  borrow_by_mode RateMode.stable = borrow_stable
  borrow_by_mode RateMode.variable = borrow_variable
  borrow_by_mode RateMode.rate_none = borrow_variable
  borrow_by_mode (RateMode.improper text) = borrow_variable

  unfoldable pub calc_expected_reserve_data_after_borrow :
      ℤ → RateMode → ReserveData → ℤ → ℤ → Result ReserveData
  unfolding borrow_by_mode
  calc_expected_reserve_data_after_borrow amount_borrowed borrow_rate_mode before tx_timestamp
        current_timestamp =
      do
        updated ←
            update_state before
              (record (copied before) { last_update_timestamp = some tx_timestamp }) tx_timestamp
        moved ← update_liquidity_and_usage_ratios before updated (pos 0) amount_borrowed
        borrow_by_mode borrow_rate_mode amount_borrowed before moved tx_timestamp current_timestamp
