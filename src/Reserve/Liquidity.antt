-- ===== src/Reserve/Liquidity.antt =====
-- The reserve after a deposit and after a withdrawal.
use lend_core.Prelude.{Bool, if◌then◌else◌}
use lend_core.Prelude.Int.{ℤ, pos, eqb_ℤ}
use lend_core.Prelude.Result.{Result, ok, ◌>>=◌}
use lend_core.BigNumber.{BigNumberApi}
use lend_core.Constants.{max_uint_amount}
use lend_core.Types.{ReserveData, UserReserveData, Configuration, empty_reserve}
use lend_core.Interest.{calc_expected_h_token_balance}
use lend_core.State.{
  update_state, update_liquidity_and_usage_ratios, update_interest_rates,
  update_total_liquidity_and_usage_ratio,
}

-- `{}` with the three fields that every action copies first.
abbrev pub copied : ReserveData → ReserveData
copied before = record empty_reserve {
  unbacked = before.unbacked;
  address = before.address;
  reserve_factor = before.reserve_factor;
}

-- `MAX_UINT_AMOUNT` stands for the whole balance.
abbrev pub is_max : ℤ → Bool
is_max amount = eqb_ℤ amount (pos max_uint_amount)

module _ ⦃big : BigNumberApi⦄ (reserves_params : Configuration) where
  -- The common end of a deposit and a withdrawal.
  unfoldable pub after_liquidity_change : ReserveData → ReserveData → ℤ → ℤ → Result ReserveData
  after_liquidity_change before updated added taken = do
    moved ← update_liquidity_and_usage_ratios before updated added taken
    rated ←
        update_interest_rates reserves_params before
          (record moved { average_stable_borrow_rate = before.average_stable_borrow_rate })
    update_total_liquidity_and_usage_ratio rated

  unfoldable pub calc_expected_reserve_data_after_deposit : ℤ → ReserveData → ℤ → Result ReserveData
  unfolding after_liquidity_change
  calc_expected_reserve_data_after_deposit amount_deposited before tx_timestamp = do
    updated ← update_state before (copied before) tx_timestamp
    after_liquidity_change before updated amount_deposited (pos 0)

  unfoldable pub withdrawn_amount : ℤ → ReserveData → UserReserveData → ℤ → Result ℤ
  withdrawn_amount amount_withdrawn before user_before tx_timestamp =
      if is_max amount_withdrawn
      then calc_expected_h_token_balance before user_before tx_timestamp
      else ok amount_withdrawn

  unfoldable pub calc_expected_reserve_data_after_withdraw :
      ℤ → ReserveData → UserReserveData → ℤ → Result ReserveData
  unfolding after_liquidity_change withdrawn_amount
  calc_expected_reserve_data_after_withdraw amount_withdrawn before user_before tx_timestamp = do
    amount ← withdrawn_amount amount_withdrawn before user_before tx_timestamp
    updated ← update_state before (copied before) tx_timestamp
    after_liquidity_change before updated (pos 0) amount
