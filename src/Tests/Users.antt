-- ===== src/Tests/Users.antt =====
-- The theorems about the positions of users at concrete inputs.
use lend_core.BigNumber.{integers, integers-Documented}
use lend_core.Constants.{max_uint_amount}
use lend_core.Interest.{calc_expected_h_token_balance}
use lend_core.Interest.Fixed.{base_power_three, base_power_two, compounded}
use lend_core.Interest.Values.{stable_balance}
use lend_core.Prelude.{arith, false, refl, some, true, ℕ, ◌+◌, ◌-◌, ◌<◌, ◌≡◌, ◌≤◌}
use lend_core.Prelude.Int.{pos}
use lend_core.Prelude.Result.{ok}
use lend_core.Snapshot.{reserve_of, user_of}
use lend_core.Tests.Data.{account, account-IsLater, next_reserve, reserve}
use lend_core.Types.{RateMode, UserReserveData}
use lend_core.User.Debt.{calc_expected_user_data_after_repay}
use lend_core.User.Positions.{deposit_position, repay_stable_position, withdraw_all_position}
use lend_core.User.Supply.{
  calc_expected_user_data_after_deposit, calc_expected_user_data_after_withdraw, debts_at,
}
use lend_core.User.Conserved.{repay_keeps_debt}
use lend_core.WadRay.Scaled.{IsNear}
use lend_core.Constants
use lend_core.User.Values.{stable_debt}
use lend_core.WadRay.{ray_mul}
use text.Mathlib.Text.{◌==◌ as str_eq}
use lend_core.WadRay.Fixed

stable_debt-le : stable_debt reserve account 2000 ≤ 1000000
unfolding stable_debt stable_balance Fixed.mul compounded base_power_two base_power_three
stable_debt-le = omega arith

deposit_position_example :
    (e : UserReserveData) × (balance stable variable : ℕ) × (calc_expected_user_data_after_deposit
        (pos 100)
        (reserve_of reserve)
        (reserve_of next_reserve)
        (user_of account)
        (pos 2000)
      ≡ ok e)
    × (calc_expected_h_token_balance (reserve_of reserve) (user_of account) (pos 2000)
        ≡ ok (pos balance))
    × (debts_at (reserve_of reserve) (user_of account) (pos 2000) ≡ ok (pos stable, pos variable))
    × (e.current_h_token_balance ≡ some (pos (balance + 100)))
    × (e.wallet_balance ≡ some (pos (account.wallet_balance - 100)))
    × (account.current_h_token_balance ≡ 0 → e.usage_as_collateral_enabled ≡ some true)
    × (e.current_stable_debt ≡ some (pos stable))
    × (e.current_variable_debt ≡ some (pos variable))
    × (e.principal_stable_debt ≡ some (pos variable))
deposit_position_example =
    deposit_position ⦃big = integers⦄ integers-Documented reserve next_reserve account 2000
      account-IsLater 100 (omega arith) (omega arith)

withdraw_all_position_example :
    (e : UserReserveData) × (balance : ℕ) × (calc_expected_user_data_after_withdraw
        (pos max_uint_amount)
        (reserve_of reserve)
        (reserve_of next_reserve)
        (user_of account)
        (pos 2000)
      ≡ ok e)
    × (calc_expected_h_token_balance (reserve_of reserve) (user_of account) (pos 2000)
        ≡ ok (pos balance))
    × (e.current_h_token_balance ≡ some (pos 0))
    × (e.wallet_balance ≡ some (pos (account.wallet_balance + balance)))
    × (0 < account.current_h_token_balance → e.usage_as_collateral_enabled ≡ some false)
    × (e.principal_stable_debt ≡ some (pos account.principal_stable_debt))
withdraw_all_position_example =
    withdraw_all_position ⦃big = integers⦄ integers-Documented reserve next_reserve account 2000
      account-IsLater (omega arith)

repay_stable_position_example :
    (e : UserReserveData) × (stable variable : ℕ) × (calc_expected_user_data_after_repay
        (pos max_uint_amount)
        RateMode.stable
        (reserve_of reserve)
        (reserve_of next_reserve)
        (user_of account)
        "0xa1"
        "0xa1"
        (pos 2000)
        (pos 2000)
      ≡ ok e)
    × (debts_at (reserve_of reserve) (user_of account) (pos 2000) ≡ ok (pos stable, pos variable))
    × (e.current_stable_debt ≡ some (pos 0))
    × (e.principal_stable_debt ≡ some (pos 0))
    × (e.stable_borrow_rate ≡ some (pos 0))
    × (e.stable_rate_last_updated ≡ some (pos 0))
    × (e.current_variable_debt ≡ some (pos variable))
    × (e.scaled_variable_debt ≡ some (pos account.scaled_variable_debt))
    × (str_eq "0xa1" "0xa1" ≡ true
        → e.wallet_balance ≡ some (pos (account.wallet_balance - stable)))
    × (str_eq "0xa1" "0xa1" ≡ false → e.wallet_balance ≡ some (pos account.wallet_balance))
unfolding stable_debt stable_balance
repay_stable_position_example =
    repay_stable_position ⦃big = integers⦄ integers-Documented reserve next_reserve account 2000
      account-IsLater 2000 "0xa1" "0xa1" (omega arith) stable_debt-le

repay_keeps_debt_example :
    (e : UserReserveData) × (stable variable debt : ℕ) × (calc_expected_user_data_after_repay
        (pos 100)
        RateMode.variable
        (reserve_of reserve)
        (reserve_of next_reserve)
        (user_of account)
        "0xa1"
        "0xb2"
        (pos 2000)
        (pos 2000)
      ≡ ok e)
    × (debts_at (reserve_of reserve) (user_of account) (pos 2000) ≡ ok (pos stable, pos variable))
    × (e.current_variable_debt ≡ some (pos debt))
    × IsNear next_reserve.variable_borrow_index (debt + 100) 500
    × (str_eq "0xa1" "0xb2" ≡ true → e.wallet_balance ≡ some (pos (account.wallet_balance - 100)))
    × (str_eq "0xa1" "0xb2" ≡ false → e.wallet_balance ≡ some (pos account.wallet_balance))
    × (e.principal_stable_debt ≡ some (pos stable))
    × (e.current_stable_debt ≡ some (pos account.principal_stable_debt))
unfolding ray_mul
repay_keeps_debt_example =
    repay_keeps_debt ⦃big = integers⦄ integers-Documented reserve next_reserve account 2000
      account-IsLater 2000 100 500 "0xa1" "0xb2" (omega arith) (omega arith) (omega arith)
      (omega arith) refl (omega arith)
