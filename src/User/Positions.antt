-- ===== src/User/Positions.antt =====
-- The position of a user after an action, from complete data, for every BigNumber that keeps to
-- its documentation.
use Prim.Native.String.{String}
use text.Mathlib.Text.{◌==◌ as str_eq}
use lend_core.Prelude.{ℕ, ◌+◌, ◌-◌, ◌≤◌, ◌<◌, ◌≡◌, refl, some, true, false, pos→==}
use lend_core.Prelude.Int.{pos}
use lend_core.Prelude.Result.{ok}
use lend_core.BigNumber.{BigNumberApi, Documented, Documented-integers}
use lend_core.Constants.{max_uint_amount}
use lend_core.Types.{UserReserveData, RateMode}
use lend_core.Interest.{calc_expected_h_token_balance}
use lend_core.Interest.Values.{calc_expected_h_token_balance-pos}
use lend_core.Snapshot.{Snapshot, reserve_of, UserSnapshot, user_of}
use lend_core.User.Supply.{
  debts_at, calc_expected_user_data_after_deposit, calc_expected_user_data_after_withdraw,
}
use lend_core.User.Debt.{calc_expected_user_data_after_repay}
use lend_core.User.Values.{IsLater, stable_debt, variable_debt, h_token_balance, debts_at-pos}
use lend_core.User.Outcomes.{deposited, deposited-pos, withdrawn, withdrawn-pos}
use lend_core.User.DebtOutcomes.{stable_repaid, stable_repaid-pos}

module _ ⦃big : BigNumberApi⦄ (doc : Documented big) (s after : Snapshot) (u : UserSnapshot)
    (now : ℕ) (later : IsLater s u now) where
  -- After a deposit of at most the wallet's balance the user holds the hTokens of before with
  -- their interest and the amount, and the wallet has lost the amount; a first deposit is used as
  -- collateral. The stable and the variable debt are those at the time of the transaction, but the
  -- principal of the stable debt becomes the variable debt.
  pub deposit_position :
      (amount : ℕ)
      → amount ≤ u.wallet_balance
      → 0 < after.liquidity_index
      → (e : UserReserveData) × (balance stable variable : ℕ)
        × (calc_expected_user_data_after_deposit
              (pos amount)
              (reserve_of s)
              (reserve_of after)
              (user_of u)
              (pos now)
            ≡ ok e)
        × (calc_expected_h_token_balance (reserve_of s) (user_of u) (pos now) ≡ ok (pos balance))
        × (debts_at (reserve_of s) (user_of u) (pos now) ≡ ok (pos stable, pos variable))
        × (e.current_h_token_balance ≡ some (pos (balance + amount)))
        × (e.wallet_balance ≡ some (pos (u.wallet_balance - amount)))
        × (u.current_h_token_balance ≡ 0 → e.usage_as_collateral_enabled ≡ some true)
        × (e.current_stable_debt ≡ some (pos stable))
        × (e.current_variable_debt ≡ some (pos variable))
        × (e.principal_stable_debt ≡ some (pos variable))
  unfolding h_token_balance
  deposit_position amount h p = rw (Documented-integers big doc) (
    deposited s after u now later amount,
    h_token_balance s u now,
    stable_debt s u now,
    variable_debt s u now,
    deposited-pos s after u now later amount h p,
    calc_expected_h_token_balance-pos s now later.reserve_updated u,
    debts_at-pos s u now later,
    refl,
    refl,
    (λ z. rw z),
    refl,
    refl,
    refl,
  )

  -- After a withdrawal of the whole balance no hTokens are left and the wallet has got the balance
  -- with its interest. The reserve stops being used as collateral if the user had a balance. The
  -- principal of the stable debt stays.
  pub withdraw_all_position :
      0 < after.liquidity_index
      → (e : UserReserveData) × (balance : ℕ) × (calc_expected_user_data_after_withdraw
            (pos max_uint_amount)
            (reserve_of s)
            (reserve_of after)
            (user_of u)
            (pos now)
          ≡ ok e)
        × (calc_expected_h_token_balance (reserve_of s) (user_of u) (pos now) ≡ ok (pos balance))
        × (e.current_h_token_balance ≡ some (pos 0))
        × (e.wallet_balance ≡ some (pos (u.wallet_balance + balance)))
        × (0 < u.current_h_token_balance → e.usage_as_collateral_enabled ≡ some false)
        × (e.principal_stable_debt ≡ some (pos u.principal_stable_debt))
  unfolding h_token_balance
  withdraw_all_position p = rw (Documented-integers big doc) (
    withdrawn s after u now later,
    h_token_balance s u now,
    withdrawn-pos s after u now later p,
    calc_expected_h_token_balance-pos s now later.reserve_updated u,
    refl,
    refl,
    (λ q. rw (pos→== u.current_h_token_balance q)),
    refl,
  )

  -- A repayment of the whole stable debt that the wallet can pay leaves no stable debt and clears
  -- its rate and the time of its update. The variable debt stays. The wallet pays the stable debt,
  -- with its interest up to now, if the user repays the own debt, and nothing otherwise.
  pub repay_stable_position :
      (tx : ℕ) (payer on_behalf_of : String)
      → s.last_update_timestamp ≤ tx
      → stable_debt s u now ≤ u.wallet_balance
      → (e : UserReserveData) × (stable variable : ℕ) × (calc_expected_user_data_after_repay
            (pos max_uint_amount)
            RateMode.stable
            (reserve_of s)
            (reserve_of after)
            (user_of u)
            payer
            on_behalf_of
            (pos tx)
            (pos now)
          ≡ ok e)
        × (debts_at (reserve_of s) (user_of u) (pos now) ≡ ok (pos stable, pos variable))
        × (e.current_stable_debt ≡ some (pos 0))
        × (e.principal_stable_debt ≡ some (pos 0))
        × (e.stable_borrow_rate ≡ some (pos 0))
        × (e.stable_rate_last_updated ≡ some (pos 0))
        × (e.current_variable_debt ≡ some (pos variable))
        × (e.scaled_variable_debt ≡ some (pos u.scaled_variable_debt))
        × (str_eq payer on_behalf_of ≡ true
            → e.wallet_balance ≡ some (pos (u.wallet_balance - stable)))
        × (str_eq payer on_behalf_of ≡ false → e.wallet_balance ≡ some (pos u.wallet_balance))
  repay_stable_position tx payer on_behalf_of h k = rw (Documented-integers big doc) (
    stable_repaid s after u now later tx (str_eq payer on_behalf_of),
    stable_debt s u now,
    variable_debt s u now,
    stable_repaid-pos s after u now later tx payer on_behalf_of h k,
    debts_at-pos s u now later,
    refl,
    refl,
    refl,
    refl,
    refl,
    refl,
    (λ own. rw own),
    (λ other. rw other),
  )
