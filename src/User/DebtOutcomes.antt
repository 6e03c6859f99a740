-- ===== src/User/DebtOutcomes.antt =====
-- The positions after a swap of the rate mode and after a repayment, on the integers.
use Prim.Native.String.{String}
use text.Mathlib.Text.{◌==◌ as str_eq}
use lend_core.Prelude.{
  ℕ, ◌+◌, ◌-◌, ◌≤◌, ◌<◌, ◌≡◌, refl, arith, some, ◌==◌, Bool, true, false, if◌then◌else◌,
}
use lend_core.Prelude.Int.{pos, sub_ℕ_ge, sub_ℕ}
use lend_core.Prelude.Result.{ok}
use lend_core.BigNumber.{integers}
use lend_core.Constants.{max_uint_amount}
use lend_core.Types.{empty_user, UserReserveData, RateMode}
use lend_core.WadRay.Fixed
use lend_core.WadRay.Values.{ray_mul-pos, ray_div-pos}
use lend_core.Interest.Values.{calc_expected_h_token_balance-pos}
use lend_core.Snapshot.{Snapshot, reserve_of, UserSnapshot, user_of}
use lend_core.User.Debt.{
  swap_to_variable, swap_to_stable, calc_expected_user_data_after_swap_rate_mode, repay_stable,
  repay_variable, calc_expected_user_data_after_repay,
}
use lend_core.Reserve.Repay.{repaid_amount}
use lend_core.Rates.{calc_expected_user_stable_rate}
use lend_core.User.Values.{IsLater, stable_debt, variable_debt, h_token_balance, debts_at-pos}
use lend_core.User.Outcomes.{sub_self}

module _ (s after : Snapshot) (u : UserSnapshot) (now : ℕ) (later : IsLater s u now) where
  -- The user whose stable debt became a variable one.
  abbrev pub swapped : UserReserveData
  swapped =
      let scaled =
        u.scaled_variable_debt + Fixed.div (stable_debt s u now) after.variable_borrow_index in
      record (user_of u) {
        current_h_token_balance = some (pos (h_token_balance s u now));
        current_stable_debt = some (pos 0);
        principal_stable_debt = some (pos 0);
        stable_borrow_rate = some (pos 0);
        stable_rate_last_updated = some (pos 0);
        scaled_variable_debt = some (pos scaled);
        current_variable_debt = some (pos (Fixed.mul scaled after.variable_borrow_index));
        liquidity_rate = some (pos after.liquidity_rate);
      }

  pub swapped-pos :
      0 < after.variable_borrow_index
      → calc_expected_user_data_after_swap_rate_mode
          (reserve_of s)
          (reserve_of after)
          (user_of u)
          RateMode.stable
          (pos now)
        ≡ ok swapped
  unfolding calc_expected_user_data_after_swap_rate_mode h_token_balance swap_to_variable
  swapped-pos p = rw (
    debts_at-pos s u now later,
    calc_expected_h_token_balance-pos s now later.reserve_updated u,
    ray_div-pos (stable_debt s u now) after.variable_borrow_index p,
    ray_mul-pos,
  )

  -- The user whose variable debt became a stable one, at a stable rate.
  abbrev pub swapped_back : ℕ → UserReserveData
  swapped_back rate =
      let principal = u.current_stable_debt + variable_debt s u now in
      record (user_of u) {
        current_h_token_balance = some (pos (h_token_balance s u now));
        current_stable_debt = some (pos principal);
        principal_stable_debt = some (pos principal);
        stable_borrow_rate = some (pos rate);
        stable_rate_last_updated = some (pos now);
        scaled_variable_debt = some (pos 0);
        current_variable_debt = some (pos 0);
        liquidity_rate = some (pos after.liquidity_rate);
      }

  pub swapped_back-pos :
      (rate : ℕ)
      → calc_expected_user_stable_rate
          (pos (stable_debt s u now))
          (pos u.stable_borrow_rate)
          (pos (variable_debt s u now))
          (pos s.stable_borrow_rate)
        ≡ ok (pos rate)
      → calc_expected_user_data_after_swap_rate_mode
          (reserve_of s)
          (reserve_of after)
          (user_of u)
          RateMode.variable
          (pos now)
        ≡ ok (swapped_back rate)
  unfolding calc_expected_user_data_after_swap_rate_mode h_token_balance swap_to_stable
  swapped_back-pos rate averaged = rw (
    debts_at-pos s u now later,
    calc_expected_h_token_balance-pos s now later.reserve_updated u,
    averaged,
  )

  -- The user who has repaid the whole stable debt, for `on_behalf_of` or for another user.
  abbrev pub stable_repaid : ℕ → Bool → UserReserveData
  stable_repaid tx own = record empty_user {
    scaled_variable_debt = some (pos u.scaled_variable_debt);
    current_variable_debt = some (pos (variable_debt s u now));
    principal_stable_debt = some (pos 0);
    current_stable_debt = some (pos 0);
    stable_borrow_rate = some (pos 0);
    stable_rate_last_updated = some (pos 0);
    liquidity_rate = some (pos after.liquidity_rate);
    usage_as_collateral_enabled = some u.usage_as_collateral_enabled;
    current_h_token_balance = some (pos (h_token_balance s u tx));
    scaled_h_token_balance = some (pos u.scaled_h_token_balance);
    wallet_balance =
        some (pos (if own then u.wallet_balance - stable_debt s u now else u.wallet_balance));
  }

  wallet_after :
      (own : Bool) (paid : ℕ)
      → paid ≤ u.wallet_balance
      → (if own then sub_ℕ u.wallet_balance paid else pos u.wallet_balance)
        ≡ pos (if own then u.wallet_balance - paid else u.wallet_balance)
  wallet_after true paid h = sub_ℕ_ge u.wallet_balance paid h
  wallet_after false paid h = refl

  pub stable_repaid-pos :
      (tx : ℕ) (payer on_behalf_of : String)
      → s.last_update_timestamp ≤ tx
      → stable_debt s u now ≤ u.wallet_balance
      → calc_expected_user_data_after_repay
          (pos max_uint_amount)
          RateMode.stable
          (reserve_of s)
          (reserve_of after)
          (user_of u)
          payer
          on_behalf_of
          (pos tx)
          (pos now)
        ≡ ok (stable_repaid tx (str_eq payer on_behalf_of))
  unfolding calc_expected_user_data_after_repay repaid_amount repay_stable h_token_balance
  stable_repaid-pos tx payer on_behalf_of h k = rw (
    debts_at-pos s u now later,
    calc_expected_h_token_balance-pos s tx h u,
    sub_self (stable_debt s u now),
    wallet_after (str_eq payer on_behalf_of) (stable_debt s u now) k,
  )

  -- The user after a repayment of a part of the variable debt, by the user or by another account.
  abbrev pub variable_repaid : ℕ → ℕ → Bool → UserReserveData
  variable_repaid tx amount own =
      let scaled = u.scaled_variable_debt - Fixed.div amount after.variable_borrow_index in
      record empty_user {
        current_stable_debt = some (pos u.principal_stable_debt);
        principal_stable_debt = some (pos (stable_debt s u now));
        stable_borrow_rate = some (pos u.stable_borrow_rate);
        stable_rate_last_updated = some (pos u.stable_rate_last_updated);
        scaled_variable_debt = some (pos scaled);
        current_variable_debt = some (pos (Fixed.mul scaled after.variable_borrow_index));
        liquidity_rate = some (pos after.liquidity_rate);
        usage_as_collateral_enabled = some u.usage_as_collateral_enabled;
        current_h_token_balance = some (pos (h_token_balance s u tx));
        scaled_h_token_balance = some (pos u.scaled_h_token_balance);
        wallet_balance = some (pos (if own then u.wallet_balance - amount else u.wallet_balance));
      }

  pub variable_repaid-pos :
      (tx amount : ℕ) (payer on_behalf_of : String)
      → s.last_update_timestamp ≤ tx
      → amount < max_uint_amount
      → amount ≤ u.wallet_balance
      → 0 < after.variable_borrow_index
      → Fixed.div amount after.variable_borrow_index ≤ u.scaled_variable_debt
      → calc_expected_user_data_after_repay
          (pos amount)
          RateMode.variable
          (reserve_of s)
          (reserve_of after)
          (user_of u)
          payer
          on_behalf_of
          (pos tx)
          (pos now)
        ≡ ok (variable_repaid tx amount (str_eq payer on_behalf_of))
  unfolding calc_expected_user_data_after_repay repaid_amount repay_variable h_token_balance
  variable_repaid-pos tx amount payer on_behalf_of h k w p d =
      let not_max : (amount == max_uint_amount) ≡ false = ground arith in
      rw (
        debts_at-pos s u now later,
        not_max,
        ray_div-pos amount after.variable_borrow_index p,
        sub_ℕ_ge u.scaled_variable_debt (Fixed.div amount after.variable_borrow_index) d,
        ray_mul-pos (u.scaled_variable_debt - Fixed.div amount after.variable_borrow_index)
            after.variable_borrow_index,
        calc_expected_h_token_balance-pos s tx h u,
        wallet_after (str_eq payer on_behalf_of) amount w,
      )
