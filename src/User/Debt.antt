-- ===== src/User/Debt.antt =====
-- The user after a borrow, a repayment, a swap of the rate mode and a stable rate rebalance.
use Prim.Native.String.{String}
use text.Mathlib.Text.{◌==◌ as str_eq}
use lend_core.Prelude.{some, if◌then◌else◌}
use lend_core.Prelude.Int.{ℤ, pos}
use lend_core.Prelude.Result.{Result, ok, ◌>>=◌, defined}
use lend_core.BigNumber.{BigNumberApi}
use lend_core.Types.{ReserveData, UserReserveData, RateMode, empty_user}
use lend_core.WadRay.{ray_mul, ray_div}
use lend_core.Interest.{
  calc_expected_stable_debt_token_balance, calc_expected_variable_debt_token_balance,
  calc_expected_h_token_balance,
}
use lend_core.Rates.{calc_expected_user_stable_rate}
use lend_core.Reserve.Repay.{by_mode, repaid_amount}
use lend_core.User.Supply.{debts_at}

module _ ⦃big : BigNumberApi⦄ where
  open big use {add, sub, eq}

  unfoldable pub borrow_stable : ℤ → ReserveData → UserReserveData → ℤ → ℤ → Result UserReserveData
  borrow_stable amount_borrowed before user_before tx_timestamp current_timestamp = do
    principal_before ← defined user_before.principal_stable_debt
    rate_before ← defined user_before.stable_borrow_rate
    last_updated ← defined user_before.stable_rate_last_updated
    until_tx ←
        calc_expected_stable_debt_token_balance principal_before rate_before last_updated
          tx_timestamp
    let principal = add until_tx amount_borrowed
    reserve_rate ← defined before.stable_borrow_rate
    stable_borrow_rate ←
        calc_expected_user_stable_rate until_tx rate_before amount_borrowed reserve_rate
    current_stable_debt ←
        calc_expected_stable_debt_token_balance principal stable_borrow_rate tx_timestamp
          current_timestamp
    ok (record empty_user {
      principal_stable_debt = some principal;
      stable_rate_last_updated = some tx_timestamp;
      stable_borrow_rate = some stable_borrow_rate;
      current_stable_debt = some current_stable_debt;
      scaled_variable_debt = user_before.scaled_variable_debt;
    })

  -- The scaled debt starts from that of the whole reserve, as the code has it.
  unfoldable pub borrow_variable :
      ℤ → ReserveData → ReserveData → UserReserveData → ℤ → Result UserReserveData
  borrow_variable amount_borrowed before after user_before current_timestamp = do
    scaled_before ← defined before.scaled_variable_debt
    variable_borrow_index ← defined after.variable_borrow_index
    scaled_borrowed ← ray_div amount_borrowed variable_borrow_index
    principal_before ← defined user_before.principal_stable_debt
    rate_before ← defined user_before.stable_borrow_rate
    last_updated ← defined user_before.stable_rate_last_updated
    current_stable_debt ←
        calc_expected_stable_debt_token_balance principal_before rate_before last_updated
          current_timestamp
    ok (record empty_user {
      scaled_variable_debt = some (add scaled_before scaled_borrowed);
      principal_stable_debt = user_before.principal_stable_debt;
      stable_borrow_rate = user_before.stable_borrow_rate;
      stable_rate_last_updated = user_before.stable_rate_last_updated;
      current_stable_debt = some current_stable_debt;
    })

  unfoldable pub calc_expected_user_data_after_borrow :
      ℤ → RateMode → ReserveData → ReserveData → UserReserveData → ℤ → ℤ → Result UserReserveData
  unfolding borrow_stable borrow_variable
  calc_expected_user_data_after_borrow amount_borrowed interest_rate_mode before after user_before
        tx_timestamp current_timestamp =
      do
        borrowed ←
            by_mode interest_rate_mode
              (borrow_stable amount_borrowed before user_before tx_timestamp current_timestamp)
              (borrow_variable amount_borrowed before after user_before current_timestamp)
        current_variable_debt ←
            calc_expected_variable_debt_token_balance after borrowed current_timestamp
        current_h_token_balance ← calc_expected_h_token_balance after user_before current_timestamp
        wallet_balance ← defined user_before.wallet_balance
        ok (record borrowed {
          current_variable_debt = some current_variable_debt;
          liquidity_rate = after.liquidity_rate;
          usage_as_collateral_enabled = user_before.usage_as_collateral_enabled;
          current_h_token_balance = some current_h_token_balance;
          scaled_h_token_balance = user_before.scaled_h_token_balance;
          wallet_balance = some (add wallet_balance amount_borrowed);
        })

  -- The stable debt is repaid: when nothing is left, its rate and its time stamp are cleared.
  unfoldable pub repay_stable : ℤ → UserReserveData → ℤ → ℤ → ℤ → UserReserveData
  repay_stable total_repaid user_before stable_debt variable_debt tx_timestamp =
      let left = sub stable_debt total_repaid in
      let cleared = eq left (pos 0) in
      record empty_user {
        scaled_variable_debt = user_before.scaled_variable_debt;
        current_variable_debt = some variable_debt;
        principal_stable_debt = some left;
        current_stable_debt = some left;
        stable_borrow_rate = if cleared then some (pos 0) else user_before.stable_borrow_rate;
        stable_rate_last_updated = if cleared then some (pos 0) else some tx_timestamp;
      }

  -- The two stable debts change places, as the code has it.
  unfoldable pub repay_variable : ℤ → ReserveData → UserReserveData → ℤ → Result UserReserveData
  repay_variable total_repaid after user_before stable_debt = do
    scaled_before ← defined user_before.scaled_variable_debt
    variable_borrow_index ← defined after.variable_borrow_index
    scaled_repaid ← ray_div total_repaid variable_borrow_index
    let scaled_variable_debt = sub scaled_before scaled_repaid
    current_variable_debt ← ray_mul scaled_variable_debt variable_borrow_index
    ok (record empty_user {
      current_stable_debt = user_before.principal_stable_debt;
      principal_stable_debt = some stable_debt;
      stable_borrow_rate = user_before.stable_borrow_rate;
      stable_rate_last_updated = user_before.stable_rate_last_updated;
      scaled_variable_debt = some scaled_variable_debt;
      current_variable_debt = some current_variable_debt;
    })

  unfoldable pub calc_expected_user_data_after_repay :
      ℤ
      → RateMode
      → ReserveData
      → ReserveData
      → UserReserveData
      → String
      → String
      → ℤ
      → ℤ
      → Result UserReserveData
  unfolding repay_stable repay_variable
  calc_expected_user_data_after_repay total_repaid rate_mode before after user_before user
        on_behalf_of tx_timestamp current_timestamp =
      do
        (stable_debt, variable_debt) ← debts_at before user_before current_timestamp
        let amount = repaid_amount rate_mode total_repaid stable_debt variable_debt
        repaid ←
            by_mode rate_mode
              (ok (repay_stable amount user_before stable_debt variable_debt tx_timestamp))
              (repay_variable amount after user_before stable_debt)
        current_h_token_balance ← calc_expected_h_token_balance before user_before tx_timestamp
        wallet_balance ← defined user_before.wallet_balance
        ok (record repaid {
          liquidity_rate = after.liquidity_rate;
          usage_as_collateral_enabled = user_before.usage_as_collateral_enabled;
          current_h_token_balance = some current_h_token_balance;
          scaled_h_token_balance = user_before.scaled_h_token_balance;
          wallet_balance =
              some (if str_eq user on_behalf_of then sub wallet_balance amount else wallet_balance);
        })

  unfoldable pub swap_to_variable :
      ReserveData → UserReserveData → UserReserveData → ℤ → Result UserReserveData
  swap_to_variable after user_before expected stable_debt = do
    scaled_before ← defined user_before.scaled_variable_debt
    variable_borrow_index ← defined after.variable_borrow_index
    scaled_added ← ray_div stable_debt variable_borrow_index
    let scaled_variable_debt = add scaled_before scaled_added
    current_variable_debt ← ray_mul scaled_variable_debt variable_borrow_index
    ok (record expected {
      current_stable_debt = some (pos 0);
      principal_stable_debt = some (pos 0);
      stable_borrow_rate = some (pos 0);
      scaled_variable_debt = some scaled_variable_debt;
      current_variable_debt = some current_variable_debt;
      stable_rate_last_updated = some (pos 0);
    })

  unfoldable pub swap_to_stable :
      ReserveData → UserReserveData → UserReserveData → ℤ → ℤ → ℤ → Result UserReserveData
  swap_to_stable before user_before expected stable_debt variable_debt tx_timestamp = do
    stable_before ← defined user_before.current_stable_debt
    rate_before ← defined user_before.stable_borrow_rate
    reserve_rate ← defined before.stable_borrow_rate
    stable_borrow_rate ←
        calc_expected_user_stable_rate stable_debt rate_before variable_debt reserve_rate
    ok (record expected {
      principal_stable_debt = some (add stable_before variable_debt);
      current_stable_debt = some (add stable_before variable_debt);
      stable_borrow_rate = some stable_borrow_rate;
      stable_rate_last_updated = some tx_timestamp;
      current_variable_debt = some (pos 0);
      scaled_variable_debt = some (pos 0);
    })

  unfoldable pub calc_expected_user_data_after_swap_rate_mode :
      ReserveData → ReserveData → UserReserveData → RateMode → ℤ → Result UserReserveData
  unfolding swap_to_variable swap_to_stable
  calc_expected_user_data_after_swap_rate_mode before after user_before rate_mode tx_timestamp = do
    (stable_debt, variable_debt) ← debts_at before user_before tx_timestamp
    current_h_token_balance ← calc_expected_h_token_balance before user_before tx_timestamp
    let expected = record user_before { current_h_token_balance = some current_h_token_balance }
    swapped ←
        by_mode rate_mode (swap_to_variable after user_before expected stable_debt)
          (swap_to_stable before user_before expected stable_debt variable_debt tx_timestamp)
    ok (record swapped { liquidity_rate = after.liquidity_rate })

  unfoldable pub calc_expected_user_data_after_stable_rate_rebalance :
      ReserveData → ReserveData → UserReserveData → ℤ → Result UserReserveData
  calc_expected_user_data_after_stable_rate_rebalance before after user_before tx_timestamp = do
    (stable_debt, variable_debt) ← debts_at before user_before tx_timestamp
    current_h_token_balance ← calc_expected_h_token_balance before user_before tx_timestamp
    ok (record user_before {
      current_stable_debt = some stable_debt;
      principal_stable_debt = some stable_debt;
      current_variable_debt = some variable_debt;
      stable_rate_last_updated = some tx_timestamp;
      stable_borrow_rate = after.average_stable_borrow_rate;
      liquidity_rate = after.liquidity_rate;
      current_h_token_balance = some current_h_token_balance;
    })
