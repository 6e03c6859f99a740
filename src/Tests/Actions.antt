-- ===== src/Tests/Actions.antt =====
-- The theorems about the comparison, the reading, the actions and the stories on the small chain.
use Prim.Native.String.{String}
use lend_core.Prelude.{◌+◌, ◌*◌, ◌^◌, ◌≡◌, refl, ◌↔◌, Option, none, some, true, false, [], ◌∷◌}
use lend_core.Prelude.Int.{pos}
use lend_core.Prelude.Run.{follow}
use lend_core.Prelude.Result.{Error, ok, err}
use lend_core.BigNumber.{integers, integers-Documented}
use lend_core.Snapshot.{Snapshot, UserSnapshot, reserve_of, user_of}
use lend_core.Reserve.Consistent.{IsConsistent}
use lend_core.Comparison.{
  expect_equal, reserve_object, user_object, almost_equal, almost_equal_or_equal, check_number,
  check_property, check_text, is_accessory, lookup, to_string,
}
use lend_core.Comparison.Accepted.{IsClose, IsCloseUser}
use lend_core.Comparison.Tolerance.{expect_equal-IsClose}
use lend_core.Chain.Reading.{
  get_contracts_data, convert_to_currency_decimals, get_h_token_user_data, get_reserve_data,
  get_user_data, sender_or_user, time_latest,
}
use lend_core.Chain.Answers.{Answers}
use lend_core.Chain.Snapshots.{get_contracts_data-snapshots}
use lend_core.Actions.{
  amount_or_all, given, all_given, await_mined, by_expected_result, converted, expect_reserve,
  expect_reverted, expect_user, get_tx_cost_and_timestamp, submit, value_to_send,
}
use lend_core.Actions.Supply.{deposit, withdraw, get_data_before_action, deposit_succeeds}
use lend_core.Actions.Passing.{IsTested, deposit_passes}
use lend_core.Actions.Refusing.{run_test, IsRefusedTest, revert-IsRefused}
use lend_core.Actions.Calls.{withdraw_test}
use lend_core.Scenario.{Arguments, Action, Story, Users, at, nth, plus_one, chosen}
use lend_core.Scenario.Runs.{execute_story, Passed, Stopped, execute_story_runs}
use lend_core.Scenario.Needs.{is_complete}
use lend_core.Rates.{
  usage_ratio, calc_expected_usage_ratios, calc_expected_interest_rates, add_excess_offset,
  add_usage_slopes, calc_expected_overall_borrow_rate, find_reserve, stable_share,
}
use lend_core.State.{
  update_state, calc_expected_accrue_to_treasury, total_debt_accrued, accrued_with,
  update_liquidity_and_usage_ratios, update_interest_rates, update_total_liquidity_and_usage_ratio,
  update_usage_ratios,
}
use lend_core.Interest.{
  calc_expected_liquidity_index, calc_expected_variable_borrow_index,
  calc_expected_total_stable_debt, calc_compounded_interest, calc_expected_total_variable_debt,
  calc_expected_h_token_balance, calc_expected_reserve_normalized_debt,
  calc_expected_reserve_normalized_income, calc_expected_scaled_h_token_balance,
  calc_expected_stable_debt_token_balance, calc_expected_variable_debt_token_balance,
  calc_linear_interest,
}
use lend_core.WadRay.{ray_mul, percent_mul, ray_div, wad_to_ray}
use lend_core.Reserve.Liquidity.{after_liquidity_change, calc_expected_reserve_data_after_deposit}
use lend_core.User.Supply.{calc_expected_user_data_after_deposit, debts_at}
use lend_core.Tests.Data.{reserve, next_reserve, account}
use lend_core.Tests.World.{chain, suite, conversions, numbers, user_numbers}

expect_equal-IsClose_example :
    ((expect_equal conversions false
          (reserve_object (reserve_of reserve))
          (reserve_object (reserve_of next_reserve))
        ≡ ok tt)
      ↔ IsClose (reserve_of next_reserve) (reserve_of reserve))
    × ((expect_equal conversions false
            (user_object (user_of account))
            (user_object (user_of account))
          ≡ ok tt)
        ↔ IsCloseUser (user_of account) (user_of account))
expect_equal-IsClose_example =
    expect_equal-IsClose integers-Documented conversions (reserve_of next_reserve)
      (reserve_of reserve) (user_of account) (user_of account)

-- The deposit of 100 passes on the small chain.
deposited : deposit suite "DAI" "100" "0x1" "0x1" none "success" false ≡ (ok tt, true)
unfolding deposit follow usage_ratio given update_state calc_expected_liquidity_index
    calc_expected_variable_borrow_index calc_expected_total_stable_debt calc_compounded_interest
    ray_mul calc_expected_total_variable_debt calc_expected_accrue_to_treasury total_debt_accrued
    percent_mul accrued_with update_liquidity_and_usage_ratios calc_expected_usage_ratios
    update_interest_rates calc_expected_interest_rates deposit_succeeds all_given await_mined
    by_expected_result converted expect_reserve expect_reverted expect_user
    get_tx_cost_and_timestamp submit value_to_send convert_to_currency_decimals get_contracts_data
    get_h_token_user_data get_reserve_data get_user_data sender_or_user time_latest almost_equal
    almost_equal_or_equal check_number check_property check_text expect_equal is_accessory lookup
    reserve_object to_string user_object calc_expected_h_token_balance
    calc_expected_reserve_normalized_debt calc_expected_reserve_normalized_income
    calc_expected_scaled_h_token_balance calc_expected_stable_debt_token_balance
    calc_expected_variable_debt_token_balance calc_linear_interest add_excess_offset
    add_usage_slopes calc_expected_overall_borrow_rate find_reserve stable_share
    after_liquidity_change calc_expected_reserve_data_after_deposit
    update_total_liquidity_and_usage_ratio update_usage_ratios calc_expected_user_data_after_deposit
    debts_at ray_div wad_to_ray
deposited = refl

deposit_passes_example :
    (deposit suite "DAI" "100" "0x1" "0x1" none "success" false ≡ (ok tt, true))
    ↔ IsTested integers-Documented suite refl "DAI" "100" "0x1" "0x1" none false true
deposit_passes_example =
    deposit_passes integers-Documented suite refl "DAI" "100" "0x1" "0x1" none false true

withdrawal-IsRefused :
    run_test suite (withdraw_test "100") "DAI" "0x1" "revert" false ≡ (ok tt, false)
unfolding run_test follow withdraw get_data_before_action amount_or_all convert_to_currency_decimals
    get_contracts_data get_reserve_data get_user_data get_h_token_user_data sender_or_user
    time_latest usage_ratio by_expected_result submit expect_reverted
withdrawal-IsRefused = refl

revert-IsRefused_example :
    (run_test suite (withdraw_test "100") "DAI" "0x1" "revert" false ≡ (ok tt, false))
    ↔ IsRefusedTest suite (withdraw_test "100") "DAI" "0x1" false false
revert-IsRefused_example = revert-IsRefused suite (withdraw_test "100") "DAI" "0x1" false false

abbrev arguments : Option String → Arguments
arguments symbol = record {
  reserve = symbol;
  user = some "0";
  borrow_rate_mode = none;
  amount = some "100";
  send_value = none;
  on_behalf_of = none;
  to_user = none;
  time_travel = none;
  use_as_collateral = none;
  target = none;
}

abbrev deposit_action : Option String → Action
deposit_action symbol = record {
  name = some "deposit";
  args = some (arguments symbol);
  expected = some "success";
  revert_message = none;
}

abbrev users : Users
users = record {
  addresses = "0x1" ∷ [];
  secret_keys = "0xf0" ∷ "0xf1" ∷ [];
  parse_int = λ text. some (pos 0);
}

abbrev story : Story
story = record { description = "a deposit"; actions = deposit_action (some "DAI") ∷ [] }

execute_story_runs_example :
    ((execute_story suite users story false ≡ (ok tt, true))
      ↔ Passed suite users story.actions false true)
    × ((x : Error)
        → execute_story suite users story false ≡ (err x, true)
        → Stopped suite users story.actions false x true)
execute_story_runs_example = execute_story_runs suite users story false true

-- A withdrawal without an amount
abbrev no_amount : Action
no_amount = record {
  name = some "withdraw";
  args = some (record (arguments (some "DAI")) { amount = none });
  expected = some "success";
  revert_message = none;
}

withdrawal_lacks : is_complete users no_amount ≡ false
unfolding is_complete given at nth plus_one
withdrawal_lacks = refl

deposit_lacks_nothing : is_complete users (deposit_action (some "DAI")) ≡ true
unfolding is_complete given at nth plus_one chosen
deposit_lacks_nothing = refl

answers : Answers chain "0xda1" "0x1" none false
unfolding sender_or_user
answers = record {
  numbers = numbers false;
  tokens = record {
    h_token_address = "0xa0";
    stable_debt_token_address = "0xb0";
    variable_debt_token_address = "0xc0";
  };
  rate_strategy = "0xd0";
  reserve_factor = 1000;
  base_stable_rate = 6 * 10 ^ 25;
  principal_stable_debt = 0;
  stable_debt_last_updated = 0;
  scaled_variable_debt = 0;
  symbol = "DAI";
  decimals = 18;
  available_liquidity = 1000;
  user_numbers = user_numbers false;
  scaled_h_token_balance = 0;
  wallet_balance = 500;
  timestamp = 1500;
  numbers_read = refl;
  tokens_read = refl;
  rate_strategy_read = refl;
  reserve_factor_read = refl;
  base_stable_rate_read = refl;
  principal_read = refl;
  last_updated_read = refl;
  scaled_read = refl;
  symbol_read = refl;
  decimals_read = refl;
  available_read = refl;
  user_read = refl;
  scaled_balance_read = refl;
  wallet_read = refl;
  timestamp_read = refl;
}

get_contracts_data-snapshots_example :
    (r : Snapshot) × (u : UserSnapshot) × (get_contracts_data chain "0xda1" "0x1" none false
      ≡ ok (record {
        reserve_data = reserve_of r;
        user_data = user_of u;
        timestamp = pos answers.timestamp;
      }))
    × IsConsistent (reserve_of r)
    × (r.available_liquidity ≡ answers.available_liquidity)
    × (r.total_liquidity ≡ answers.available_liquidity + r.unbacked)
    × (u.wallet_balance ≡ answers.wallet_balance)
get_contracts_data-snapshots_example =
    get_contracts_data-snapshots integers-Documented chain "0xda1" "0x1" none false answers
