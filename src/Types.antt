-- ===== src/Types.antt =====
-- The data of the calculations: test-suites/helpers/utils/interfaces/index.ts and the parts of
-- helpers/types.ts that they read. An object under construction starts as `{}`, so that every
-- field is an `Option`: `none` is `undefined`.
use Prim.Native.String.{String}
use lend_core.Prelude.{Option, none, Bool, List}
use lend_core.Prelude.Int.{ℤ}

pub record ReserveData : Type 0 where
  pub address : Option String
  pub symbol : Option String
  pub decimals : Option ℤ
  pub reserve_factor : Option ℤ
  pub available_liquidity : Option ℤ
  pub total_liquidity : Option ℤ
  pub total_stable_debt : Option ℤ
  pub total_variable_debt : Option ℤ
  pub principal_stable_debt : Option ℤ
  pub scaled_variable_debt : Option ℤ
  pub average_stable_borrow_rate : Option ℤ
  pub variable_borrow_rate : Option ℤ
  pub stable_borrow_rate : Option ℤ
  pub supply_usage_ratio : Option ℤ
  pub borrow_usage_ratio : Option ℤ
  pub liquidity_index : Option ℤ
  pub variable_borrow_index : Option ℤ
  pub h_token_address : Option String
  pub market_stable_rate : Option ℤ
  pub last_update_timestamp : Option ℤ
  pub total_stable_debt_last_updated : Option ℤ
  pub liquidity_rate : Option ℤ
  pub unbacked : Option ℤ
  pub accrued_to_treasury_scaled : Option ℤ

-- `<ReserveData>{}`
abbrev pub empty_reserve : ReserveData
empty_reserve = record {
  address = none;
  symbol = none;
  decimals = none;
  reserve_factor = none;
  available_liquidity = none;
  total_liquidity = none;
  total_stable_debt = none;
  total_variable_debt = none;
  principal_stable_debt = none;
  scaled_variable_debt = none;
  average_stable_borrow_rate = none;
  variable_borrow_rate = none;
  stable_borrow_rate = none;
  supply_usage_ratio = none;
  borrow_usage_ratio = none;
  liquidity_index = none;
  variable_borrow_index = none;
  h_token_address = none;
  market_stable_rate = none;
  last_update_timestamp = none;
  total_stable_debt_last_updated = none;
  liquidity_rate = none;
  unbacked = none;
  accrued_to_treasury_scaled = none;
}

-- The last two are keys that the calculations write by the index signature of the interface.
pub record UserReserveData : Type 0 where
  pub scaled_h_token_balance : Option ℤ
  pub current_h_token_balance : Option ℤ
  pub current_stable_debt : Option ℤ
  pub current_variable_debt : Option ℤ
  pub principal_stable_debt : Option ℤ
  pub scaled_variable_debt : Option ℤ
  pub liquidity_rate : Option ℤ
  pub stable_borrow_rate : Option ℤ
  pub stable_rate_last_updated : Option ℤ
  pub usage_as_collateral_enabled : Option Bool
  pub wallet_balance : Option ℤ
  pub principal_variable_debt : Option ℤ
  pub variable_borrow_index : Option ℤ

-- `<UserReserveData>{}`
abbrev pub empty_user : UserReserveData
empty_user = record {
  scaled_h_token_balance = none;
  current_h_token_balance = none;
  current_stable_debt = none;
  current_variable_debt = none;
  principal_stable_debt = none;
  scaled_variable_debt = none;
  liquidity_rate = none;
  stable_borrow_rate = none;
  stable_rate_last_updated = none;
  usage_as_collateral_enabled = none;
  wallet_balance = none;
  principal_variable_debt = none;
  variable_borrow_index = none;
}

-- `IInterestRateStrategyParams`, its texts as the numbers that they spell
pub record InterestRateStrategyParams : Type 0 where
  pub name : String
  pub optimal_usage_ratio : ℤ
  pub base_variable_borrow_rate : ℤ
  pub variable_rate_slope1 : ℤ
  pub variable_rate_slope2 : ℤ
  pub stable_rate_slope1 : ℤ
  pub stable_rate_slope2 : ℤ
  pub base_stable_rate_offset : ℤ
  pub stable_rate_excess_offset : ℤ
  pub optimal_stable_to_total_debt_ratio : ℤ

-- `IReserveParams`: the two fields that the calculations read
pub record ReserveParams : Type 0 where
  pub reserve_factor : ℤ
  pub strategy : InterestRateStrategyParams

-- The module variable `configuration` of calculations.ts: the reserves by their symbols, in the
-- order in which `Object.keys` lists them.
abbrev pub Configuration : Type 0
Configuration = List (String × ReserveParams)

-- `RateMode`, and every other text that a test passes for one
pub data RateMode : Type 0 where
  rate_none : RateMode
  stable : RateMode
  variable : RateMode
  improper : String → RateMode
