-- ===== src/Tests/World.antt =====
-- A small chain: before and after a transaction of one user in a reserve without debt.
use package.text.Mathlib.Text.{◌==◌ as str_eq}
use lend_core.Prelude.{ℕ, ◌*◌, ◌^◌, Bool, true, false, none, some, [], if◌then◌else◌}
use lend_core.Prelude.Int.{pos}
use lend_core.Prelude.Result.{ok, err, type_error}
use lend_core.BigNumber.{integers}
use lend_core.Comparison.{Conversions}
use lend_core.Chain.{
  Chain, Ethers, Call, Outcome, mined, refused, Receipt, ReserveNumbers, UserNumbers,
}
use lend_core.Actions.{Suite}
use lend_core.Tests.Data.{reserves_params}

abbrev pub numbers : Bool → ReserveNumbers
numbers moved = record {
  unbacked = 0;
  accrued_to_treasury_scaled = 0;
  total_stable_debt = 0;
  total_variable_debt = 0;
  liquidity_rate = 0;
  variable_borrow_rate = 0;
  stable_borrow_rate = 6 * 10 ^ 25;
  average_stable_borrow_rate = 0;
  liquidity_index = 10 ^ 27;
  variable_borrow_index = 10 ^ 27;
  last_update_timestamp = if moved then 2000 else 1000;
}

abbrev pub user_numbers : Bool → UserNumbers
user_numbers moved = record {
  current_h_token_balance = if moved then 100 else 0;
  current_stable_debt = 0;
  current_variable_debt = 0;
  principal_stable_debt = 0;
  scaled_variable_debt = 0;
  stable_borrow_rate = 0;
  liquidity_rate = 0;
  stable_rate_last_updated = 0;
  usage_as_collateral_enabled = moved;
}

abbrev pub receipt : Receipt
receipt = record {
  block_number = some 7;
  transaction_hash = some "0xf7";
  cumulative_gas_used = some (pos 21000);
  effective_gas_price = pos 3;
  logs = some [];
}

-- The balance of the hToken or of the user
abbrev balance : Bool → Bool → ℕ
balance true moved = if moved then 1100 else 1000
balance false moved = if moved then 400 else 500

-- A deposit is mined, and everything else is refused.
abbrev pub sent : Call → Bool → Outcome × Bool
sent (Call.deposit sender reserve amount on_behalf_of value) moved = (mined receipt, true)
sent call moved = (refused "no", moved)

abbrev pub chain : Chain
chain = record {
  State = Bool;
  reserve_address = λ symbol moved. ok "0xda1";
  reserve_numbers = λ reserve moved. ok (numbers moved);
  pool_token_addresses = λ reserve moved. ok (record {
    h_token_address = "0xa0";
    stable_debt_token_address = "0xb0";
    variable_debt_token_address = "0xc0";
  });
  token_addresses = λ reserve moved. ok (record {
    h_token_address = "0xa0";
    stable_debt_token_address = "0xb0";
    variable_debt_token_address = "0xc0";
  });
  rate_strategy_address = λ reserve moved. ok "0xd0";
  reserve_factor = λ reserve moved. ok 1000;
  base_stable_borrow_rate = λ strategy moved. ok (6 * 10 ^ 25);
  principal_supply = λ token moved. ok 0;
  total_supply_last_updated = λ token moved. ok 0;
  scaled_total_supply = λ token moved. ok 0;
  symbol = λ reserve moved. ok "DAI";
  decimals = λ reserve moved. ok 18;
  balance_of = λ token holder moved. ok (balance (str_eq holder "0xa0") moved);
  scaled_balance_of = λ token user moved. ok (if moved then 100 else 0);
  user_numbers = λ reserve user moved. ok (user_numbers moved);
  borrow_allowance = λ token owner spender moved. ok 0;
  previous_index = λ token user moved. ok (10 ^ 27);
  user_stable_rate = λ token user moved. ok 0;
  principal_balance_of = λ token user moved. ok 0;
  user_last_updated = λ token user moved. ok 0;
  average_stable_rate = λ token moved. ok 0;
  normalized_income = λ reserve moved. ok (10 ^ 27);
  normalized_variable_debt = λ reserve moved. ok (10 ^ 27);
  nonce = λ token owner moved. ok 0;
  chain_id = λ moved. ok 31337;
  latest_timestamp = λ moved. ok (if moved then 2000 else 1500);
  block_timestamp = λ block moved. ok 2000;
  gas_price = λ hash moved. ok none;
  send = sent;
  advance_time = λ seconds moved. (ok tt, moved);
}

abbrev pub ethers : Ethers
ethers = record {
  parse_units = λ text decimals. ok (pos 100);
  read_number = λ text. ok (pos 1);
  to_number = λ n. ok n;
  decimal = λ n. "100";
  hex = λ n. "0x64";
  lower_case = λ text. text;
  sign = λ key data_to_sign. record { v = 27; r = "0x1"; s = "0x2" };
  matches = λ message reason. true;
}

abbrev pub conversions : Conversions
conversions = record { decimal = λ n. "100"; from = λ value. err type_error }

abbrev pub suite : Suite
suite = record {
  chain = chain;
  ethers = ethers;
  conversions = conversions;
  reserves_params = reserves_params;
  skip_integrity_check = false;
  pool_address = "0xe0";
}
