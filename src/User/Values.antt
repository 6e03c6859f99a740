-- ===== src/User/Values.antt =====
-- The positions of a user on the integers and on complete data.
use lend_core.Prelude.{ℕ, ◌+◌, ◌-◌, ◌≤◌, ◌<◌, ◌≡◌, arith, ap}
use lend_core.Prelude.Int.{pos, sub_ℕ_ge, sub_ℕ}
use lend_core.Prelude.Result.{ok}
use lend_core.BigNumber.{integers}
use lend_core.WadRay.Fixed
use lend_core.WadRay.Values.{ray_div-pos}
use lend_core.Interest.Fixed as Formula
use lend_core.Interest.{calc_expected_scaled_h_token_balance}
use lend_core.Interest.Values.{
  stable_balance, calc_expected_stable_debt_token_balance-pos,
  calc_expected_variable_debt_token_balance-pos,
}
use lend_core.Snapshot.{Snapshot, reserve_of, UserSnapshot, user_of}
use lend_core.User.Supply.{debts_at}

-- A time from which on the balances of the user can be calculated.
pub record IsLater (s : Snapshot) (u : UserSnapshot) (now : ℕ) : Type 0 where
  pub reserve_updated : s.last_update_timestamp ≤ now
  pub user_updated : u.stable_rate_last_updated ≤ now

module _ (s : Snapshot) (u : UserSnapshot) (now : ℕ) where
  unfoldable pub stable_debt : ℕ
  stable_debt =
      stable_balance u.principal_stable_debt u.stable_borrow_rate u.stable_rate_last_updated now

  unfoldable pub variable_debt : ℕ
  variable_debt = Fixed.mul u.scaled_variable_debt (
      Fixed.mul (Formula.compounded s.variable_borrow_rate (now - s.last_update_timestamp))
        s.variable_borrow_index)

  unfoldable pub h_token_balance : ℕ
  h_token_balance = Fixed.mul u.scaled_h_token_balance (
      Fixed.mul (Formula.linear s.liquidity_rate (now - s.last_update_timestamp)) s.liquidity_index)

  pub debts_at-pos :
      IsLater s u now
      → debts_at (reserve_of s) (user_of u) (pos now) ≡ ok (pos stable_debt, pos variable_debt)
  unfolding debts_at stable_debt variable_debt
  debts_at-pos later = rw (
    calc_expected_stable_debt_token_balance-pos u.principal_stable_debt u.stable_borrow_rate
        u.stable_rate_last_updated now later.user_updated,
    calc_expected_variable_debt_token_balance-pos s now later.reserve_updated u,
  )

pub sub_zero : (a : ℕ) → sub_ℕ a 0 ≡ pos a
sub_zero a = rw (sub_ℕ_ge a 0 (omega arith)) (ap pos (omega arith))

no_more : (a : ℕ) → a + 0 ≡ a
no_more a = omega arith

module _ (u : UserSnapshot) (index amount : ℕ) (p : 0 < index) where
  pub scaled_added-pos :
      calc_expected_scaled_h_token_balance (user_of u) (pos index) (pos amount) (pos 0)
      ≡ ok (pos (u.scaled_h_token_balance + Fixed.div amount index))
  unfolding calc_expected_scaled_h_token_balance
  scaled_added-pos = rw (
    ray_div-pos amount index p,
    ray_div-pos 0 index p,
    Fixed.zero-div index p,
    sub_zero (u.scaled_h_token_balance + Fixed.div amount index),
  )

  pub scaled_taken-pos :
      calc_expected_scaled_h_token_balance (user_of u) (pos index) (pos 0) (pos amount)
      ≡ ok (sub_ℕ u.scaled_h_token_balance (Fixed.div amount index))
  unfolding calc_expected_scaled_h_token_balance
  scaled_taken-pos = rw (
    ray_div-pos amount index p,
    ray_div-pos 0 index p,
    Fixed.zero-div index p,
    no_more u.scaled_h_token_balance,
  )
