-- ===== src/Tests/Data.antt =====
-- A market with one reserve and one user.
use lend_core.Prelude.{ℕ, ◌*◌, ◌^◌, refl, arith, true, [], ◌∷◌}
use lend_core.Prelude.Int.{pos}
use lend_core.Types.{Configuration}
use lend_core.Rates.{find_reserve}
use lend_core.Rates.Fixed.{Strategy, IsValid}
use lend_core.Rates.Values.{strategy_of, IsConfigured}
use lend_core.Snapshot.{Snapshot, UserSnapshot}
use lend_core.State.Values.{IsSound}
use lend_core.User.Values.{IsLater}
use lend_core.Contracts.RateStrategy.{CalculateInterestRatesParams}
use lend_core.ForkConfig.{Environment}

abbrev pub half_unit : ℕ
half_unit = 5 * 10 ^ 17

abbrev pub divisor : ℕ
divisor = 7

abbrev pub liquidity : ℕ
liquidity = 1000

abbrev pub local_chain : ℕ
local_chain = 31337

abbrev pub first_nonce : ℕ
first_nonce = 1

abbrev pub five_percent : ℕ
five_percent = 5 * 10 ^ 25

abbrev pub six_percent : ℕ
six_percent = 6 * 10 ^ 25

abbrev pub strategy : Strategy
strategy = record {
  optimal_usage_ratio = 8 * 10 ^ 26;
  base_variable_borrow_rate = 0;
  variable_rate_slope1 = 4 * 10 ^ 25;
  variable_rate_slope2 = 75 * 10 ^ 25;
  stable_rate_slope1 = 2 * 10 ^ 25;
  stable_rate_slope2 = 75 * 10 ^ 25;
  base_stable_rate_offset = 2 * 10 ^ 25;
  stable_rate_excess_offset = 5 * 10 ^ 25;
  optimal_stable_to_total_debt_ratio = 2 * 10 ^ 26;
}

pub strategy-IsValid : IsValid strategy
strategy-IsValid = record {
  optimum_pos = omega arith;
  optimum_lt = omega arith;
  share_lt = omega arith;
}

abbrev pub reserves_params : Configuration
reserves_params =
    (
      "DAI",
      record { reserve_factor = pos 1000; strategy = strategy_of "rateStrategyStableOne" strategy },
    )
    ∷ []

pub strategy-IsConfigured :
    IsConfigured "rateStrategyStableOne" strategy strategy-IsValid reserves_params "DAI" 1000
unfolding find_reserve
strategy-IsConfigured = refl

abbrev pub reserve : Snapshot
reserve = record {
  address = "0xd1";
  symbol = "DAI";
  decimals = 18;
  reserve_factor = 1000;
  available_liquidity = 10000;
  total_liquidity = 10500;
  total_stable_debt = 3000;
  total_variable_debt = 5000;
  principal_stable_debt = 3000;
  scaled_variable_debt = 5000;
  average_stable_borrow_rate = five_percent;
  variable_borrow_rate = six_percent;
  stable_borrow_rate = six_percent;
  supply_usage_ratio = 4 * 10 ^ 26;
  borrow_usage_ratio = 44 * 10 ^ 25;
  liquidity_index = 10 ^ 27;
  variable_borrow_index = 10 ^ 27;
  h_token_address = "0xd2";
  market_stable_rate = 4 * 10 ^ 25;
  last_update_timestamp = 1000;
  total_stable_debt_last_updated = 900;
  liquidity_rate = 2 * 10 ^ 25;
  unbacked = 500;
  accrued_to_treasury_scaled = 20;
}

pub reserve-IsSound : IsSound reserve 2000
reserve-IsSound = record {
  updated = omega arith;
  stable_updated = omega arith;
  initialised = omega arith;
}

-- The reserve after an action, for the position of its user.
abbrev pub next_reserve : Snapshot
next_reserve = record reserve {
  last_update_timestamp = 2000;
  liquidity_index = 2 * 10 ^ 27;
  variable_borrow_index = 10 ^ 27;
}

abbrev pub account : UserSnapshot
account = record {
  scaled_h_token_balance = 2000;
  current_h_token_balance = 2000;
  current_stable_debt = 300;
  current_variable_debt = 500;
  principal_stable_debt = 300;
  scaled_variable_debt = 500;
  liquidity_rate = 2 * 10 ^ 25;
  stable_borrow_rate = five_percent;
  stable_rate_last_updated = 800;
  usage_as_collateral_enabled = true;
  wallet_balance = 1000000;
}

pub account-IsLater : IsLater reserve account 2000
account-IsLater = record { reserve_updated = omega arith; user_updated = omega arith }

abbrev pub pool_state : CalculateInterestRatesParams
pool_state = record {
  unbacked = 500;
  liquidity_added = 100;
  liquidity_taken = 0;
  total_stable_debt = 3000;
  total_variable_debt = 5000;
  average_stable_borrow_rate = five_percent;
  reserve_factor = 1000;
  balance = 10000;
}

abbrev pub environment : Environment
environment = record {
  infura_key = "";
  alchemy_key = "key";
  tenderly_fork_id = "";
  fork = "main";
  fork_block_number = 0;
}
