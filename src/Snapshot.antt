-- ===== src/Snapshot.antt =====
-- Complete data of a reserve and of a user, as the contracts return them: every number is a
-- `uint256`, so that none is negative. The theorems about the calculations start from these.
use Prim.Native.String.{String}
use lend_core.Prelude.{ℕ, Bool, some, none}
use lend_core.Prelude.Int.{pos}
use lend_core.Types.{ReserveData, UserReserveData}

pub record Snapshot : Type 0 where
  pub address : String
  pub symbol : String
  pub decimals : ℕ
  pub reserve_factor : ℕ
  pub available_liquidity : ℕ
  pub total_liquidity : ℕ
  pub total_stable_debt : ℕ
  pub total_variable_debt : ℕ
  pub principal_stable_debt : ℕ
  pub scaled_variable_debt : ℕ
  pub average_stable_borrow_rate : ℕ
  pub variable_borrow_rate : ℕ
  pub stable_borrow_rate : ℕ
  pub supply_usage_ratio : ℕ
  pub borrow_usage_ratio : ℕ
  pub liquidity_index : ℕ
  pub variable_borrow_index : ℕ
  pub h_token_address : String
  pub market_stable_rate : ℕ
  pub last_update_timestamp : ℕ
  pub total_stable_debt_last_updated : ℕ
  pub liquidity_rate : ℕ
  pub unbacked : ℕ
  pub accrued_to_treasury_scaled : ℕ

abbrev pub reserve_of : Snapshot → ReserveData
reserve_of s = record {
  address = some s.address;
  symbol = some s.symbol;
  decimals = some (pos s.decimals);
  reserve_factor = some (pos s.reserve_factor);
  available_liquidity = some (pos s.available_liquidity);
  total_liquidity = some (pos s.total_liquidity);
  total_stable_debt = some (pos s.total_stable_debt);
  total_variable_debt = some (pos s.total_variable_debt);
  principal_stable_debt = some (pos s.principal_stable_debt);
  scaled_variable_debt = some (pos s.scaled_variable_debt);
  average_stable_borrow_rate = some (pos s.average_stable_borrow_rate);
  variable_borrow_rate = some (pos s.variable_borrow_rate);
  stable_borrow_rate = some (pos s.stable_borrow_rate);
  supply_usage_ratio = some (pos s.supply_usage_ratio);
  borrow_usage_ratio = some (pos s.borrow_usage_ratio);
  liquidity_index = some (pos s.liquidity_index);
  variable_borrow_index = some (pos s.variable_borrow_index);
  h_token_address = some s.h_token_address;
  market_stable_rate = some (pos s.market_stable_rate);
  last_update_timestamp = some (pos s.last_update_timestamp);
  total_stable_debt_last_updated = some (pos s.total_stable_debt_last_updated);
  liquidity_rate = some (pos s.liquidity_rate);
  unbacked = some (pos s.unbacked);
  accrued_to_treasury_scaled = some (pos s.accrued_to_treasury_scaled);
}

pub record UserSnapshot : Type 0 where
  pub scaled_h_token_balance : ℕ
  pub current_h_token_balance : ℕ
  pub current_stable_debt : ℕ
  pub current_variable_debt : ℕ
  pub principal_stable_debt : ℕ
  pub scaled_variable_debt : ℕ
  pub liquidity_rate : ℕ
  pub stable_borrow_rate : ℕ
  pub stable_rate_last_updated : ℕ
  pub usage_as_collateral_enabled : Bool
  pub wallet_balance : ℕ

abbrev pub user_of : UserSnapshot → UserReserveData
user_of u = record {
  scaled_h_token_balance = some (pos u.scaled_h_token_balance);
  current_h_token_balance = some (pos u.current_h_token_balance);
  current_stable_debt = some (pos u.current_stable_debt);
  current_variable_debt = some (pos u.current_variable_debt);
  principal_stable_debt = some (pos u.principal_stable_debt);
  scaled_variable_debt = some (pos u.scaled_variable_debt);
  liquidity_rate = some (pos u.liquidity_rate);
  stable_borrow_rate = some (pos u.stable_borrow_rate);
  stable_rate_last_updated = some (pos u.stable_rate_last_updated);
  usage_as_collateral_enabled = some u.usage_as_collateral_enabled;
  wallet_balance = some (pos u.wallet_balance);
  principal_variable_debt = none;
  variable_borrow_index = none;
}
