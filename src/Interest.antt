-- ===== src/Interest.antt =====
-- test-suites/helpers/utils/calculations.ts: the interest formulas, and the balances that they
-- give. A calculation takes the fields that it reads as numbers; the callers read them, and throw
-- on one that is undefined.
pub mod Fixed
pub mod Values
pub mod Growth
use lend_core.Prelude.{◌||◌, if◌then◌else◌}
use lend_core.Prelude.Int.{ℤ, pos}
use lend_core.Prelude.Result.{Result, ok, ◌>>=◌, defined}
use lend_core.BigNumber.{BigNumberApi}
use lend_core.Constants
use lend_core.Types.{ReserveData, UserReserveData}
use lend_core.WadRay.{ray, ray_mul, ray_div, wad_to_ray}

abbrev pub seconds_per_year : ℤ
seconds_per_year = pos Constants.one_year

module _ ⦃big : BigNumberApi⦄ where
  open big use {add, sub, mul, div, eq, gt}

  unfoldable pub calc_linear_interest : ℤ → ℤ → ℤ → Result ℤ
  calc_linear_interest rate current_timestamp last_update_timestamp = do
    let time_difference = sub current_timestamp last_update_timestamp
    yearly ← div (mul rate time_difference) seconds_per_year
    ok (add yearly ray)

  unfoldable pub calc_compounded_interest : ℤ → ℤ → ℤ → Result ℤ
  calc_compounded_interest rate current_timestamp last_update_timestamp =
      let time_difference = sub current_timestamp last_update_timestamp in
      if eq time_difference (pos 0) then ok ray else do
        let exp_minus_one = sub time_difference (pos 1)
        let exp_minus_two =
            if gt time_difference (pos 2) then sub time_difference (pos 2) else pos 0
        squared ← ray_mul rate rate
        base_power_two ← div squared (mul seconds_per_year seconds_per_year)
        cubed ← ray_mul base_power_two rate
        base_power_three ← div cubed seconds_per_year
        second_term ← div (mul (mul time_difference exp_minus_one) base_power_two) (pos 2)
        third_term ←
            div (mul (mul (mul time_difference exp_minus_one) exp_minus_two) base_power_three)
              (pos 6)
        first_term ← div (mul rate time_difference) seconds_per_year
        ok (add (add (add ray first_term) second_term) third_term)

  unfoldable pub calc_expected_reserve_normalized_income : ReserveData → ℤ → Result ℤ
  calc_expected_reserve_normalized_income reserve_data current_timestamp = do
    liquidity_rate ← defined reserve_data.liquidity_rate
    liquidity_index ← defined reserve_data.liquidity_index
    if eq liquidity_rate (pos 0) then ok liquidity_index else do
      last_update_timestamp ← defined reserve_data.last_update_timestamp
      cumulated_interest ←
          calc_linear_interest liquidity_rate current_timestamp last_update_timestamp
      ray_mul cumulated_interest liquidity_index

  unfoldable pub calc_expected_reserve_normalized_debt : ℤ → ℤ → ℤ → ℤ → Result ℤ
  calc_expected_reserve_normalized_debt variable_borrow_rate variable_borrow_index
        last_update_timestamp current_timestamp =
      if eq variable_borrow_rate (pos 0) then ok variable_borrow_index else do
        cumulated_interest ←
            calc_compounded_interest variable_borrow_rate current_timestamp last_update_timestamp
        ray_mul cumulated_interest variable_borrow_index

  unfoldable pub calc_expected_h_token_balance : ReserveData → UserReserveData → ℤ → Result ℤ
  calc_expected_h_token_balance reserve_data user_data current_timestamp = do
    index ← calc_expected_reserve_normalized_income reserve_data current_timestamp
    scaled_balance_before_action ← defined user_data.scaled_h_token_balance
    ray_mul scaled_balance_before_action index

  unfoldable pub calc_expected_scaled_h_token_balance : UserReserveData → ℤ → ℤ → ℤ → Result ℤ
  calc_expected_scaled_h_token_balance user_data_before_action index amount_added amount_taken = do
    scaled ← defined user_data_before_action.scaled_h_token_balance
    added ← ray_div amount_added index
    taken ← ray_div amount_taken index
    ok (sub (add scaled added) taken)

  unfoldable pub calc_expected_variable_debt_token_balance :
      ReserveData → UserReserveData → ℤ → Result ℤ
  calc_expected_variable_debt_token_balance reserve_data user_data current_timestamp = do
    variable_borrow_rate ← defined reserve_data.variable_borrow_rate
    variable_borrow_index ← defined reserve_data.variable_borrow_index
    last_update_timestamp ← defined reserve_data.last_update_timestamp
    normalized_debt ←
        calc_expected_reserve_normalized_debt variable_borrow_rate variable_borrow_index
          last_update_timestamp current_timestamp
    scaled_variable_debt ← defined user_data.scaled_variable_debt
    ray_mul scaled_variable_debt normalized_debt

  unfoldable pub calc_expected_stable_debt_token_balance : ℤ → ℤ → ℤ → ℤ → Result ℤ
  calc_expected_stable_debt_token_balance principal_stable_debt stable_borrow_rate
        stable_rate_last_updated current_timestamp =
      if eq stable_borrow_rate (pos 0)
        || (eq current_timestamp stable_rate_last_updated || eq stable_rate_last_updated (pos 0))
      then ok principal_stable_debt
      else do
        cumulated_interest ←
            calc_compounded_interest stable_borrow_rate current_timestamp stable_rate_last_updated
        ray_mul principal_stable_debt cumulated_interest

  unfoldable pub calc_expected_total_stable_debt : ℤ → ℤ → ℤ → ℤ → Result ℤ
  calc_expected_total_stable_debt principal_stable_debt average_stable_borrow_rate
        last_update_timestamp current_timestamp =
      do
        cumulated_interest ←
            calc_compounded_interest average_stable_borrow_rate current_timestamp
              last_update_timestamp
        ray_mul cumulated_interest principal_stable_debt

  unfoldable pub calc_expected_total_variable_debt : ReserveData → ℤ → Result ℤ
  calc_expected_total_variable_debt reserve_data expected_variable_debt_index = do
    scaled_variable_debt ← defined reserve_data.scaled_variable_debt
    ray_mul scaled_variable_debt expected_variable_debt_index

  unfoldable pub calc_expected_liquidity_index : ReserveData → ℤ → Result ℤ
  calc_expected_liquidity_index reserve_data timestamp = do
    supply_usage_ratio ← defined reserve_data.supply_usage_ratio
    liquidity_index ← defined reserve_data.liquidity_index
    if eq supply_usage_ratio (pos 0) then ok liquidity_index else do
      liquidity_rate ← defined reserve_data.liquidity_rate
      last_update_timestamp ← defined reserve_data.last_update_timestamp
      cumulated_interest ← calc_linear_interest liquidity_rate timestamp last_update_timestamp
      ray_mul cumulated_interest liquidity_index

  unfoldable pub calc_expected_variable_borrow_index : ReserveData → ℤ → Result ℤ
  calc_expected_variable_borrow_index reserve_data timestamp = do
    total_variable_debt ← defined reserve_data.total_variable_debt
    variable_borrow_index ← defined reserve_data.variable_borrow_index
    if eq total_variable_debt (pos 0) then ok variable_borrow_index else do
      variable_borrow_rate ← defined reserve_data.variable_borrow_rate
      last_update_timestamp ← defined reserve_data.last_update_timestamp
      cumulated_interest ←
          calc_compounded_interest variable_borrow_rate timestamp last_update_timestamp
      ray_mul cumulated_interest variable_borrow_index
