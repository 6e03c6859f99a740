-- ===== src/User/Outcomes.antt =====
-- The positions that the calculations come to on the integers, field by field.
use lend_core.Prelude.{
  ℕ, ◌+◌, ◌-◌, ◌≤◌, ◌<◌, ◌≡◌, refl, arith, ap, some, ◌==◌, Bool, true, false, if◌then◌else◌, none,
}
use lend_core.Prelude.Int.{pos, sub_ℕ_ge, sub_ℕ}
use lend_core.Prelude.Result.{ok}
use lend_core.BigNumber.{integers}
use lend_core.Constants.{max_uint_amount}
use lend_core.Types.{empty_user, UserReserveData}
use lend_core.WadRay.Fixed
use lend_core.Interest.Values.{calc_expected_h_token_balance-pos}
use lend_core.Snapshot.{Snapshot, reserve_of, UserSnapshot, user_of}
use lend_core.User.Supply.{
  calc_expected_user_data_after_deposit, calc_expected_user_data_after_withdraw,
}
use lend_core.User.Values.{
  IsLater, stable_debt, variable_debt, h_token_balance, debts_at-pos, scaled_added-pos,
  scaled_taken-pos,
}

pub sub_self : (a : ℕ) → sub_ℕ a a ≡ pos 0
sub_self a = rw (sub_ℕ_ge a a (omega arith)) (ap pos (omega arith))

module _ (s after : Snapshot) (u : UserSnapshot) (now : ℕ) (later : IsLater s u now) where
  abbrev pub deposited : ℕ → UserReserveData
  deposited amount = record empty_user {
    current_stable_debt = some (pos (stable_debt s u now));
    current_variable_debt = some (pos (variable_debt s u now));
    principal_stable_debt = some (pos (variable_debt s u now));
    scaled_variable_debt = some (pos u.scaled_variable_debt);
    stable_borrow_rate = some (pos u.stable_borrow_rate);
    stable_rate_last_updated = some (pos u.stable_rate_last_updated);
    variable_borrow_index = none;
    liquidity_rate = some (pos after.liquidity_rate);
    scaled_h_token_balance =
        some (pos (u.scaled_h_token_balance + Fixed.div amount after.liquidity_index));
    current_h_token_balance = some (pos (h_token_balance s u now + amount));
    usage_as_collateral_enabled =
        if u.current_h_token_balance == 0 then some true else some u.usage_as_collateral_enabled;
    wallet_balance = some (pos (u.wallet_balance - amount));
  }

  pub deposited-pos :
      (amount : ℕ)
      → amount ≤ u.wallet_balance
      → 0 < after.liquidity_index
      → calc_expected_user_data_after_deposit
          (pos amount)
          (reserve_of s)
          (reserve_of after)
          (user_of u)
          (pos now)
        ≡ ok (deposited amount)
  unfolding calc_expected_user_data_after_deposit h_token_balance
  deposited-pos amount h p = rw (
    debts_at-pos s u now later,
    scaled_added-pos u after.liquidity_index amount p,
    calc_expected_h_token_balance-pos s now later.reserve_updated u,
    sub_ℕ_ge u.wallet_balance amount h,
  )

  -- What is left after a withdrawal of the whole balance.
  abbrev pub withdrawn : UserReserveData
  withdrawn = record empty_user {
    scaled_h_token_balance = some (
        sub_ℕ u.scaled_h_token_balance (Fixed.div (h_token_balance s u now) after.liquidity_index));
    current_h_token_balance = some (pos 0);
    principal_stable_debt = some (pos u.principal_stable_debt);
    scaled_variable_debt = some (pos u.scaled_variable_debt);
    current_stable_debt = some (pos (stable_debt s u now));
    current_variable_debt = some (pos (variable_debt s u now));
    stable_borrow_rate = some (pos u.stable_borrow_rate);
    stable_rate_last_updated = some (pos u.stable_rate_last_updated);
    variable_borrow_index = none;
    liquidity_rate = some (pos after.liquidity_rate);
    usage_as_collateral_enabled = some (u.current_h_token_balance == 0);
    wallet_balance = some (pos (u.wallet_balance + h_token_balance s u now));
  }

  all_collateral :
      (b c : Bool) → (if b then some true else (if true then some false else some c)) ≡ some b
  all_collateral true c = refl
  all_collateral false c = refl

  pub withdrawn-pos :
      0 < after.liquidity_index
      → calc_expected_user_data_after_withdraw
          (pos max_uint_amount)
          (reserve_of s)
          (reserve_of after)
          (user_of u)
          (pos now)
        ≡ ok withdrawn
  unfolding calc_expected_user_data_after_withdraw h_token_balance
  withdrawn-pos p = rw (
    calc_expected_h_token_balance-pos s now later.reserve_updated u,
    scaled_taken-pos u after.liquidity_index (h_token_balance s u now) p,
    debts_at-pos s u now later,
    sub_self (h_token_balance s u now),
    all_collateral (u.current_h_token_balance == 0) u.usage_as_collateral_enabled,
  )
