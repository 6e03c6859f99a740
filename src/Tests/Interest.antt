-- ===== src/Tests/Interest.antt =====
-- The theorems about the interest at concrete inputs.
use lend_core.BigNumber.{integers, integers-Documented}
use lend_core.Constants.{ray}
use lend_core.Contracts.Accrual.{compounded_interest_agrees, linear_interest_agrees}
use lend_core.Contracts.MathUtils.{
  calculate_compounded_interest, calculate_linear_interest, compounded_terms,
}
use lend_core.Interest.{
  calc_compounded_interest, calc_expected_h_token_balance, calc_expected_liquidity_index,
  calc_expected_stable_debt_token_balance, calc_expected_variable_borrow_index,
  calc_expected_variable_debt_token_balance, calc_linear_interest,
}
use lend_core.Interest.Growth.{balances_grow, indexes_grow, interest_grows, stable_debt_grows}
use lend_core.Prelude.{arith, refl, ℕ, ◌≡◌, ◌≤◌}
use lend_core.Prelude.Int.{pos}
use lend_core.Prelude.Result.{ok}
use lend_core.Snapshot.{reserve_of, user_of}
use lend_core.Tests.Data.{account, five_percent, reserve}
use lend_core.Contracts.WadRayMath

abbrev linear_factor : ℕ
linear_factor = 1000001585489599188229325215

abbrev compounded_factor : ℕ
compounded_factor = 1000001585490854820473691715

linear_interest_agrees_example :
    calc_linear_interest (pos five_percent) (pos 2000) (pos 1000) ≡ ok (pos linear_factor)
unfolding calculate_linear_interest
linear_interest_agrees_example =
    linear_interest_agrees ⦃big = integers⦄ integers-Documented five_percent 1000 2000 linear_factor
      refl

compounded_interest_agrees_example :
    calc_compounded_interest (pos five_percent) (pos 2000) (pos 1000) ≡ ok (pos compounded_factor)
unfolding calculate_compounded_interest compounded_terms WadRayMath.ray_mul
compounded_interest_agrees_example =
    compounded_interest_agrees ⦃big = integers⦄ integers-Documented five_percent 1000 2000
      compounded_factor refl

interest_grows_example :
    (l l' c c' : ℕ) × (calc_linear_interest (pos five_percent) (pos 2000) (pos 1000) ≡ ok (pos l))
    × (calc_linear_interest (pos five_percent) (pos 5000) (pos 1000) ≡ ok (pos l'))
    × (calc_compounded_interest (pos five_percent) (pos 2000) (pos 1000) ≡ ok (pos c))
    × (calc_compounded_interest (pos five_percent) (pos 5000) (pos 1000) ≡ ok (pos c'))
    × (ray ≤ l)
    × (l ≤ l')
    × (l ≤ c)
    × (c ≤ c')
interest_grows_example =
    interest_grows ⦃big = integers⦄ integers-Documented five_percent 1000 2000 5000 (omega arith)
      (omega arith)

indexes_grow_example :
    (i j : ℕ) × (calc_expected_liquidity_index (reserve_of reserve) (pos 2000) ≡ ok (pos i))
    × (calc_expected_variable_borrow_index (reserve_of reserve) (pos 2000) ≡ ok (pos j))
    × (reserve.liquidity_index ≤ i)
    × (reserve.variable_borrow_index ≤ j)
    × (reserve.supply_usage_ratio ≡ 0 → i ≡ reserve.liquidity_index)
    × (reserve.total_variable_debt ≡ 0 → j ≡ reserve.variable_borrow_index)
indexes_grow_example = indexes_grow ⦃big = integers⦄ integers-Documented reserve 2000 (omega arith)

balances_grow_example :
    (b b' d d' : ℕ) × (calc_expected_h_token_balance
        (reserve_of reserve)
        (user_of account)
        (pos 2000)
      ≡ ok (pos b))
    × (calc_expected_h_token_balance (reserve_of reserve) (user_of account) (pos 5000)
        ≡ ok (pos b'))
    × (calc_expected_variable_debt_token_balance (reserve_of reserve) (user_of account) (pos 2000)
        ≡ ok (pos d))
    × (calc_expected_variable_debt_token_balance (reserve_of reserve) (user_of account) (pos 5000)
        ≡ ok (pos d'))
    × (b ≤ b')
    × (d ≤ d')
balances_grow_example =
    balances_grow ⦃big = integers⦄ integers-Documented reserve account 2000 5000 (omega arith)
      (omega arith)

stable_debt_grows_example :
    (b b' : ℕ) × (calc_expected_stable_debt_token_balance
        (pos 300)
        (pos five_percent)
        (pos 1000)
        (pos 2000)
      ≡ ok (pos b))
    × (calc_expected_stable_debt_token_balance (pos 300) (pos five_percent) (pos 1000) (pos 5000)
        ≡ ok (pos b'))
    × (300 ≤ b)
    × (b ≤ b')
    × (five_percent ≡ 0 → b ≡ 300)
stable_debt_grows_example =
    stable_debt_grows ⦃big = integers⦄ integers-Documented 300 five_percent 1000 2000 5000
      (omega arith) (omega arith)
