-- ===== src/Chain/Reading.antt =====
-- test-suites/helpers/utils/helpers.ts: the data of a reserve and of a user, as the tests read it
-- from the contracts; helpers/misc-utils.ts and helpers/contracts-helpers.ts: the time and amounts;
-- test-suites/helpers/actions.ts: the data together.
use Prim.Native.String.{String}
use package.text.Mathlib.Text.{◌==◌ as str_eq}
use lend_core.Prelude.{Option, none, some, if◌then◌else◌}
use lend_core.Prelude.Int.{ℤ, pos}
use lend_core.Prelude.Result.{Result, ok, ◌>>=◌, ◌>>◌, expect}
use lend_core.BigNumber.{BigNumberApi}
use lend_core.Types.{ReserveData, UserReserveData}
use lend_core.Rates.{usage_ratio}
use lend_core.Chain.{Chain, Ethers}

pub record ContractsData : Type 0 where
  pub reserve_data : ReserveData
  pub user_data : UserReserveData
  pub timestamp : ℤ

module _ ⦃big : BigNumberApi⦄ (chain : Chain) where
  open big use {add, lte}

  unfoldable pub get_reserve_data : String → chain.State → Result ReserveData
  get_reserve_data reserve s = do
    numbers ← chain.reserve_numbers reserve s
    tokens ← chain.token_addresses reserve s
    rate_strategy ← chain.rate_strategy_address reserve s
    reserve_factor ← chain.reserve_factor reserve s
    base_stable_rate ← chain.base_stable_borrow_rate rate_strategy s
    principal_stable_debt ← chain.principal_supply tokens.stable_debt_token_address s
    last_updated ← chain.total_supply_last_updated tokens.stable_debt_token_address s
    scaled_variable_debt ← chain.scaled_total_supply tokens.variable_debt_token_address s
    symbol ← chain.symbol reserve s
    decimals ← chain.decimals reserve s
    available ← chain.balance_of reserve tokens.h_token_address s
    let available_liquidity = pos available
    let total_liquidity = add available_liquidity (pos numbers.unbacked)
    let total_debt = add (pos numbers.total_stable_debt) (pos numbers.total_variable_debt)
    borrow_usage_ratio ← usage_ratio total_debt available_liquidity
    supply_usage_ratio ← usage_ratio total_debt total_liquidity
    expect (lte supply_usage_ratio borrow_usage_ratio)
    ok (record {
      address = some reserve;
      symbol = some symbol;
      decimals = some (pos decimals);
      reserve_factor = some (pos reserve_factor);
      available_liquidity = some available_liquidity;
      total_liquidity = some total_liquidity;
      total_stable_debt = some (pos numbers.total_stable_debt);
      total_variable_debt = some (pos numbers.total_variable_debt);
      principal_stable_debt = some (pos principal_stable_debt);
      scaled_variable_debt = some (pos scaled_variable_debt);
      average_stable_borrow_rate = some (pos numbers.average_stable_borrow_rate);
      variable_borrow_rate = some (pos numbers.variable_borrow_rate);
      stable_borrow_rate = some (pos numbers.stable_borrow_rate);
      supply_usage_ratio = some supply_usage_ratio;
      borrow_usage_ratio = some borrow_usage_ratio;
      liquidity_index = some (pos numbers.liquidity_index);
      variable_borrow_index = some (pos numbers.variable_borrow_index);
      h_token_address = some tokens.h_token_address;
      market_stable_rate = some (pos base_stable_rate);
      last_update_timestamp = some (pos numbers.last_update_timestamp);
      total_stable_debt_last_updated = some (pos last_updated);
      liquidity_rate = some (pos numbers.liquidity_rate);
      unbacked = some (pos numbers.unbacked);
      accrued_to_treasury_scaled = some (pos numbers.accrued_to_treasury_scaled);
    })

module _ (chain : Chain) where
  unfoldable pub get_h_token_user_data : String → String → chain.State → Result ℤ
  get_h_token_user_data reserve user s = do
    tokens ← chain.token_addresses reserve s
    balance ← chain.scaled_balance_of tokens.h_token_address user s
    ok (pos balance)

  -- `sender || user`
  unfoldable pub sender_or_user : Option String → String → String
  sender_or_user none user = user
  sender_or_user (some sender) user = if str_eq sender "" then user else sender

  unfoldable pub get_user_data :
      String → String → Option String → chain.State → Result UserReserveData
  unfolding sender_or_user get_h_token_user_data
  get_user_data reserve user sender s = do
    numbers ← chain.user_numbers reserve user s
    scaled_h_token_balance ← get_h_token_user_data reserve user s
    wallet_balance ← chain.balance_of reserve (sender_or_user sender user) s
    ok (record {
      scaled_h_token_balance = some scaled_h_token_balance;
      current_h_token_balance = some (pos numbers.current_h_token_balance);
      current_stable_debt = some (pos numbers.current_stable_debt);
      current_variable_debt = some (pos numbers.current_variable_debt);
      principal_stable_debt = some (pos numbers.principal_stable_debt);
      scaled_variable_debt = some (pos numbers.scaled_variable_debt);
      liquidity_rate = some (pos numbers.liquidity_rate);
      stable_borrow_rate = some (pos numbers.stable_borrow_rate);
      stable_rate_last_updated = some (pos numbers.stable_rate_last_updated);
      usage_as_collateral_enabled = some numbers.usage_as_collateral_enabled;
      wallet_balance = some (pos wallet_balance);
      principal_variable_debt = none;
      variable_borrow_index = none;
    })

  unfoldable pub time_latest : chain.State → Result ℤ
  time_latest s = do timestamp ← chain.latest_timestamp s; ok (pos timestamp)

  unfoldable pub convert_to_currency_decimals : Ethers → String → String → chain.State → Result ℤ
  convert_to_currency_decimals ethers token_address amount s = do
    decimals ← chain.decimals token_address s
    ethers.parse_units amount decimals

module _ ⦃big : BigNumberApi⦄ (chain : Chain) where
  unfoldable pub get_contracts_data :
      String → String → Option String → chain.State → Result ContractsData
  unfolding sender_or_user get_user_data get_reserve_data time_latest
  get_contracts_data reserve user sender s = do
    user_data ← get_user_data chain reserve user (some (sender_or_user chain sender user)) s
    reserve_data ← get_reserve_data chain reserve s
    timestamp ← time_latest chain s
    ok (record { reserve_data = reserve_data; user_data = user_data; timestamp = timestamp })
