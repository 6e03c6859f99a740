-- ===== src/Reserve/Repay.antt =====
-- The reserve after a repayment.
use lend_core.Prelude.{some, if◌then◌else◌}
use lend_core.Prelude.Int.{ℤ, pos}
use lend_core.Prelude.Result.{Result, ok, ◌>>=◌, defined}
use lend_core.BigNumber.{BigNumberApi}
use lend_core.Constants.{max_uint_amount}
use lend_core.Types.{ReserveData, UserReserveData, Configuration, RateMode}
use lend_core.WadRay.{ray_mul, ray_div, negated}
use lend_core.Interest.{
  calc_expected_total_stable_debt, calc_expected_stable_debt_token_balance,
  calc_expected_variable_debt_token_balance,
}
use lend_core.Rates.{calc_expected_average_stable_borrow_rate}
use lend_core.State.{
  update_state, update_liquidity_and_usage_ratios, update_usage_ratios, update_interest_rates,
  update_total_liquidity_and_usage_ratio,
}
use lend_core.Reserve.Liquidity.{copied}

-- The debt of the mode that is chosen: anything but the stable mode is the variable one.
abbrev pub by_mode {ℓ} : {A : Type ℓ} → RateMode → A → A → A
by_mode RateMode.stable on_stable otherwise = on_stable
by_mode RateMode.variable on_stable otherwise = otherwise
by_mode RateMode.rate_none on_stable otherwise = otherwise
by_mode (RateMode.improper text) on_stable otherwise = otherwise

module _ ⦃big : BigNumberApi⦄ where
  open big use {sub, abs, eq, lt}

  -- What is repaid: an amount of `MAX_UINT_AMOUNT`, of either sign, is the whole debt.
  unfoldable pub repaid_amount : RateMode → ℤ → ℤ → ℤ → ℤ
  repaid_amount mode amount stable_debt variable_debt =
      if eq (abs amount) (pos max_uint_amount)
      then by_mode mode stable_debt variable_debt
      else amount

  -- Nothing is left of the stable debt.
  abbrev pub no_stable_debt : ReserveData → ReserveData
  no_stable_debt expected = record expected {
    principal_stable_debt = some (pos 0);
    total_stable_debt = some (pos 0);
    average_stable_borrow_rate = some (pos 0);
  }

  -- A negative average is a leftover of rounding, and is erased.
  unfoldable pub erase_negative_average : ReserveData → ℤ → ReserveData
  erase_negative_average expected average =
      if lt average (pos 0)
      then no_stable_debt expected
      else record expected { average_stable_borrow_rate = some average }

  unfoldable pub repay_stable :
      ℤ → ReserveData → UserReserveData → ReserveData → ℤ → Result ReserveData
  unfolding erase_negative_average
  repay_stable amount before user_before moved tx_timestamp = do
    principal_before ← defined before.principal_stable_debt
    average_before ← defined before.average_stable_borrow_rate
    last_updated ← defined before.total_stable_debt_last_updated
    expected_debt ←
        calc_expected_total_stable_debt principal_before average_before last_updated tx_timestamp
    let left = sub expected_debt amount
    let reduced = record moved { principal_stable_debt = some left; total_stable_debt = some left }
    if lt left (pos 0) then ok (no_stable_debt reduced) else do
      user_rate ← defined user_before.stable_borrow_rate
      average ←
          calc_expected_average_stable_borrow_rate average_before expected_debt (negated amount)
            user_rate
      ok (erase_negative_average reduced average)

  unfoldable pub repay_variable : ℤ → ReserveData → ReserveData → Result ReserveData
  repay_variable amount before moved = do
    scaled_before ← defined before.scaled_variable_debt
    variable_borrow_index ← defined moved.variable_borrow_index
    scaled_repaid ← ray_div amount variable_borrow_index
    let scaled_variable_debt = sub scaled_before scaled_repaid
    total_variable_debt ← ray_mul scaled_variable_debt variable_borrow_index
    ok (record moved {
      scaled_variable_debt = some scaled_variable_debt;
      total_variable_debt = some total_variable_debt;
      average_stable_borrow_rate = before.average_stable_borrow_rate;
    })

module _ ⦃big : BigNumberApi⦄ (reserves_params : Configuration) where
  unfoldable pub calc_expected_reserve_data_after_repay :
      ℤ → RateMode → ReserveData → UserReserveData → ℤ → Result ReserveData
  unfolding repaid_amount repay_stable repay_variable
  calc_expected_reserve_data_after_repay amount_repaid borrow_rate_mode before user_before
        tx_timestamp =
      do
        user_principal ← defined user_before.principal_stable_debt
        user_rate ← defined user_before.stable_borrow_rate
        user_last_updated ← defined user_before.stable_rate_last_updated
        user_stable_debt ←
            calc_expected_stable_debt_token_balance user_principal user_rate user_last_updated
              tx_timestamp
        user_variable_debt ←
            calc_expected_variable_debt_token_balance before user_before tx_timestamp
        let amount =
            repaid_amount borrow_rate_mode amount_repaid user_stable_debt user_variable_debt
        updated ← update_state before (copied before) tx_timestamp
        moved ← update_liquidity_and_usage_ratios before updated amount (pos 0)
        repaid ←
            by_mode borrow_rate_mode (repay_stable amount before user_before moved tx_timestamp)
              (repay_variable amount before moved)
        ratioed ← update_usage_ratios repaid
        rated ← update_interest_rates reserves_params before ratioed
        update_total_liquidity_and_usage_ratio
            (record rated { last_update_timestamp = some tx_timestamp })
