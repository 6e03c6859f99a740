-- ===== src/State.antt =====
-- test-suites/helpers/utils/calculations.ts: the steps that every action on a reserve shares. The
-- code writes into the object `expectedReserveData`; here a step returns it with the new fields.
pub mod Values
pub mod Growth
use lend_core.Prelude.{Option, some, if◌then◌else◌}
use lend_core.Prelude.Int.{ℤ, pos}
use lend_core.Prelude.Result.{Result, ok, ◌>>=◌, defined}
use lend_core.BigNumber.{BigNumberApi}
use lend_core.Types.{ReserveData, Configuration}
use lend_core.WadRay.{ray_mul, ray_div, percent_mul}
use lend_core.Interest.{
  calc_compounded_interest, calc_expected_liquidity_index, calc_expected_variable_borrow_index,
  calc_expected_total_stable_debt, calc_expected_total_variable_debt,
}
use lend_core.Rates.{calc_expected_usage_ratios, calc_expected_interest_rates}

module _ ⦃big : BigNumberApi⦄ where
  open big use {add, sub, eq, gt}

  -- The amount that is minted, in scaled hTokens.
  unfoldable pub accrued_with : Option ℤ → ℤ → ℤ → Result (Option ℤ)
  accrued_with accrued_to_treasury_scaled amount_to_mint next_liquidity_index =
      if gt amount_to_mint (pos 0)
      then (do
        accrued ← defined accrued_to_treasury_scaled
        minted ← ray_div amount_to_mint next_liquidity_index
        ok (some (add accrued minted)))
      else ok accrued_to_treasury_scaled

  -- The debt that accrued from the last update of the reserve to the next one.
  unfoldable pub total_debt_accrued : ReserveData → ReserveData → Result ℤ
  total_debt_accrued reserve_data next_reserve_data = do
    scaled_variable_debt ← defined reserve_data.scaled_variable_debt
    variable_borrow_index ← defined reserve_data.variable_borrow_index
    prev_total_variable_debt ← ray_mul scaled_variable_debt variable_borrow_index
    next_scaled_variable_debt ← defined next_reserve_data.scaled_variable_debt
    next_variable_borrow_index ← defined next_reserve_data.variable_borrow_index
    curr_total_variable_debt ← ray_mul next_scaled_variable_debt next_variable_borrow_index
    average_stable_borrow_rate ← defined reserve_data.average_stable_borrow_rate
    last_update_timestamp ← defined reserve_data.last_update_timestamp
    total_stable_debt_last_updated ← defined reserve_data.total_stable_debt_last_updated
    cumulated_stable_interest ←
        calc_compounded_interest average_stable_borrow_rate last_update_timestamp
          total_stable_debt_last_updated
    principal_stable_debt ← defined reserve_data.principal_stable_debt
    prev_total_stable_debt ← ray_mul principal_stable_debt cumulated_stable_interest
    next_total_stable_debt ← defined next_reserve_data.total_stable_debt
    ok (
        sub (sub (add curr_total_variable_debt next_total_stable_debt) prev_total_variable_debt)
          prev_total_stable_debt)

  unfoldable pub calc_expected_accrue_to_treasury : ReserveData → ReserveData → Result (Option ℤ)
  calc_expected_accrue_to_treasury reserve_data next_reserve_data = do
    reserve_factor ← defined reserve_data.reserve_factor
    let accrued_to_treasury_scaled = reserve_data.accrued_to_treasury_scaled
    if eq reserve_factor (pos 0) then ok accrued_to_treasury_scaled else do
      accrued ← total_debt_accrued reserve_data next_reserve_data
      amount_to_mint ← percent_mul accrued reserve_factor
      next_liquidity_index ← defined next_reserve_data.liquidity_index
      accrued_with accrued_to_treasury_scaled amount_to_mint next_liquidity_index

  unfoldable pub update_state : ReserveData → ReserveData → ℤ → Result ReserveData
  update_state before expected tx_timestamp = do
    liquidity_index ← calc_expected_liquidity_index before tx_timestamp
    variable_borrow_index ← calc_expected_variable_borrow_index before tx_timestamp
    principal_stable_debt ← defined before.principal_stable_debt
    average_stable_borrow_rate ← defined before.average_stable_borrow_rate
    total_stable_debt_last_updated ← defined before.total_stable_debt_last_updated
    total_stable_debt ←
        calc_expected_total_stable_debt principal_stable_debt average_stable_borrow_rate
          total_stable_debt_last_updated tx_timestamp
    total_variable_debt ← calc_expected_total_variable_debt before variable_borrow_index
    let updated = record expected {
      liquidity_index = some liquidity_index;
      variable_borrow_index = some variable_borrow_index;
      total_stable_debt = some total_stable_debt;
      total_variable_debt = some total_variable_debt;
      scaled_variable_debt = before.scaled_variable_debt;
      principal_stable_debt = before.principal_stable_debt;
    }
    accrued_to_treasury_scaled ← calc_expected_accrue_to_treasury before updated
    ok (record updated { accrued_to_treasury_scaled = accrued_to_treasury_scaled })

  -- `[expected.borrowUsageRatio, expected.supplyUsageRatio] = calcExpectedUsageRatios(...)` on the
  -- fields of the object itself.
  unfoldable pub update_usage_ratios : ReserveData → Result ReserveData
  update_usage_ratios expected = do
    total_stable_debt ← defined expected.total_stable_debt
    total_variable_debt ← defined expected.total_variable_debt
    available_liquidity ← defined expected.available_liquidity
    total_liquidity ← defined expected.total_liquidity
    (borrow_usage_ratio, supply_usage_ratio) ←
        calc_expected_usage_ratios total_stable_debt total_variable_debt available_liquidity
          total_liquidity
    ok (record expected {
      borrow_usage_ratio = some borrow_usage_ratio;
      supply_usage_ratio = some supply_usage_ratio;
    })

  unfoldable pub update_total_liquidity_and_usage_ratio : ReserveData → Result ReserveData
  unfolding update_usage_ratios
  update_total_liquidity_and_usage_ratio expected = do
    available_liquidity ← defined expected.available_liquidity
    unbacked ← defined expected.unbacked
    update_usage_ratios
        (record expected { total_liquidity = some (add available_liquidity unbacked) })

  unfoldable pub update_liquidity_and_usage_ratios :
      ReserveData → ReserveData → ℤ → ℤ → Result ReserveData
  unfolding update_usage_ratios update_total_liquidity_and_usage_ratio
  update_liquidity_and_usage_ratios before expected liquidity_added liquidity_taken = do
    available_before ← defined before.available_liquidity
    let available = sub (add available_before liquidity_added) liquidity_taken
    update_total_liquidity_and_usage_ratio
        (record expected { available_liquidity = some available })

  -- The interest rates of the object's own debts and liquidity, written into it. The symbol and
  -- the market's stable rate come from the reserve before the action.
  unfoldable pub update_interest_rates :
      Configuration → ReserveData → ReserveData → Result ReserveData
  update_interest_rates reserves_params before expected = do
    market_stable_rate ← defined before.market_stable_rate
    total_stable_debt ← defined expected.total_stable_debt
    total_variable_debt ← defined expected.total_variable_debt
    average_stable_borrow_rate ← defined expected.average_stable_borrow_rate
    available_liquidity ← defined expected.available_liquidity
    total_liquidity ← defined expected.total_liquidity
    rates ←
        calc_expected_interest_rates reserves_params before.symbol market_stable_rate
          total_stable_debt total_variable_debt average_stable_borrow_rate available_liquidity
          total_liquidity
    ok (record expected {
      liquidity_rate = some rates.liquidity_rate;
      stable_borrow_rate = some rates.stable_borrow_rate;
      variable_borrow_rate = some rates.variable_borrow_rate;
    })
