-- ===== src/User/Supply.antt =====
-- The user after a deposit, after a withdrawal, and after setting the use as collateral.
use lend_core.Prelude.{Bool, true, false, some, if◌then◌else◌}
use lend_core.Prelude.Int.{ℤ, pos}
use lend_core.Prelude.Result.{Result, ok, ◌>>=◌, defined}
use lend_core.BigNumber.{BigNumberApi}
use lend_core.Types.{ReserveData, UserReserveData, empty_user}
use lend_core.Interest.{
  calc_expected_stable_debt_token_balance, calc_expected_variable_debt_token_balance,
  calc_expected_scaled_h_token_balance, calc_expected_h_token_balance,
}
use lend_core.Reserve.Liquidity.{is_max}

module _ ⦃big : BigNumberApi⦄ where
  open big use {add, sub, eq}

  -- Both debts of the user at the time of the transaction.
  unfoldable pub debts_at : ReserveData → UserReserveData → ℤ → Result (ℤ × ℤ)
  debts_at before user_before tx_timestamp = do
    principal ← defined user_before.principal_stable_debt
    rate ← defined user_before.stable_borrow_rate
    last_updated ← defined user_before.stable_rate_last_updated
    stable ← calc_expected_stable_debt_token_balance principal rate last_updated tx_timestamp
    variable ← calc_expected_variable_debt_token_balance before user_before tx_timestamp
    ok (stable, variable)

  -- The last two assignments of the code chain, so that `principalStableDebt` ends as the
  -- variable debt.
  unfoldable pub calc_expected_user_data_after_deposit :
      ℤ → ReserveData → ReserveData → UserReserveData → ℤ → Result UserReserveData
  unfolding debts_at
  calc_expected_user_data_after_deposit amount_deposited before after user_before tx_timestamp = do
    (stable_debt, variable_debt) ← debts_at before user_before tx_timestamp
    liquidity_index ← defined after.liquidity_index
    scaled_h_token_balance ←
        calc_expected_scaled_h_token_balance user_before liquidity_index amount_deposited (pos 0)
    h_token_balance ← calc_expected_h_token_balance before user_before tx_timestamp
    current_h_token_balance_before ← defined user_before.current_h_token_balance
    wallet_balance ← defined user_before.wallet_balance
    ok (record empty_user {
      current_stable_debt = some stable_debt;
      current_variable_debt = some variable_debt;
      principal_stable_debt = some variable_debt;
      scaled_variable_debt = user_before.scaled_variable_debt;
      stable_borrow_rate = user_before.stable_borrow_rate;
      stable_rate_last_updated = user_before.stable_rate_last_updated;
      variable_borrow_index = user_before.variable_borrow_index;
      liquidity_rate = after.liquidity_rate;
      scaled_h_token_balance = some scaled_h_token_balance;
      current_h_token_balance = some (add h_token_balance amount_deposited);
      usage_as_collateral_enabled =
          if eq current_h_token_balance_before (pos 0)
          then some true
          else user_before.usage_as_collateral_enabled;
      wallet_balance = some (sub wallet_balance amount_deposited);
    })

  unfoldable pub calc_expected_user_data_after_withdraw :
      ℤ → ReserveData → ReserveData → UserReserveData → ℤ → Result UserReserveData
  unfolding debts_at
  calc_expected_user_data_after_withdraw amount_withdrawn before after user_before tx_timestamp = do
    h_token_balance ← calc_expected_h_token_balance before user_before tx_timestamp
    let amount = if is_max amount_withdrawn then h_token_balance else amount_withdrawn
    liquidity_index ← defined after.liquidity_index
    scaled_h_token_balance ←
        calc_expected_scaled_h_token_balance user_before liquidity_index (pos 0) amount
    (stable_debt, variable_debt) ← debts_at before user_before tx_timestamp
    current_h_token_balance_before ← defined user_before.current_h_token_balance
    wallet_balance ← defined user_before.wallet_balance
    let current_h_token_balance = sub h_token_balance amount
    ok (record empty_user {
      scaled_h_token_balance = some scaled_h_token_balance;
      current_h_token_balance = some current_h_token_balance;
      principal_stable_debt = user_before.principal_stable_debt;
      scaled_variable_debt = user_before.scaled_variable_debt;
      current_stable_debt = some stable_debt;
      current_variable_debt = some variable_debt;
      stable_borrow_rate = user_before.stable_borrow_rate;
      stable_rate_last_updated = user_before.stable_rate_last_updated;
      variable_borrow_index = user_before.variable_borrow_index;
      liquidity_rate = after.liquidity_rate;
      usage_as_collateral_enabled =
          if eq current_h_token_balance_before (pos 0)
          then some true
          else (if eq current_h_token_balance (pos 0)
              then some false
              else user_before.usage_as_collateral_enabled);
      wallet_balance = some (add wallet_balance amount);
    })

  unfoldable pub calc_expected_user_data_after_set_use_as_collateral :
      Bool → ReserveData → UserReserveData → UserReserveData
  calc_expected_user_data_after_set_use_as_collateral use_as_collateral before user_before =
      record user_before { usage_as_collateral_enabled = some use_as_collateral }
