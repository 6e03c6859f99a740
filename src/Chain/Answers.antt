-- ===== src/Chain/Answers.antt =====
-- The data that is read from a chain that answers, on the integers.
use Prim.Native.String.{String}
use lend_core.Prelude.{ℕ, ◌≡◌, refl, ◌+◌, arith, Option, le→leb, some}
use lend_core.Prelude.Int.{pos}
use lend_core.Prelude.Result.{ok}
use lend_core.BigNumber.{integers}
use lend_core.Rates.Fixed as Formula
use lend_core.Rates.Values.{usage_ratio-pos, usage_ratio_antitone, calc_expected_usage_ratios-pos}
use lend_core.Reserve.Consistent.{IsConsistent}
use lend_core.Snapshot.{Snapshot, reserve_of, UserSnapshot, user_of}
use lend_core.Chain.{Chain, ReserveNumbers, TokenAddresses, UserNumbers}
use lend_core.Chain.Reading.{
  get_reserve_data, get_user_data, get_h_token_user_data, sender_or_user, get_contracts_data,
  time_latest,
}

module _ (chain : Chain) (reserve user : String) (sender : Option String) (s : chain.State) where
  -- Every view that the reading calls answers in the state.
  pub record Answers : Type 0 where
    pub numbers : ReserveNumbers
    pub tokens : TokenAddresses
    pub rate_strategy : String
    pub reserve_factor : ℕ
    pub base_stable_rate : ℕ
    pub principal_stable_debt : ℕ
    pub stable_debt_last_updated : ℕ
    pub scaled_variable_debt : ℕ
    pub symbol : String
    pub decimals : ℕ
    pub available_liquidity : ℕ
    pub user_numbers : UserNumbers
    pub scaled_h_token_balance : ℕ
    pub wallet_balance : ℕ
    pub timestamp : ℕ
    pub numbers_read : chain.reserve_numbers reserve s ≡ ok numbers
    pub tokens_read : chain.token_addresses reserve s ≡ ok tokens
    pub rate_strategy_read : chain.rate_strategy_address reserve s ≡ ok rate_strategy
    pub reserve_factor_read : chain.reserve_factor reserve s ≡ ok reserve_factor
    pub base_stable_rate_read : chain.base_stable_borrow_rate rate_strategy s ≡ ok base_stable_rate
    pub principal_read :
        chain.principal_supply tokens.stable_debt_token_address s ≡ ok principal_stable_debt
    pub last_updated_read :
        chain.total_supply_last_updated tokens.stable_debt_token_address s
        ≡ ok stable_debt_last_updated
    pub scaled_read :
        chain.scaled_total_supply tokens.variable_debt_token_address s ≡ ok scaled_variable_debt
    pub symbol_read : chain.symbol reserve s ≡ ok symbol
    pub decimals_read : chain.decimals reserve s ≡ ok decimals
    pub available_read : chain.balance_of reserve tokens.h_token_address s ≡ ok available_liquidity
    pub user_read : chain.user_numbers reserve user s ≡ ok user_numbers
    pub scaled_balance_read :
        chain.scaled_balance_of tokens.h_token_address user s ≡ ok scaled_h_token_balance
    pub wallet_read :
        chain.balance_of reserve
          (sender_or_user chain (some (sender_or_user chain sender user)) user)
          s
        ≡ ok wallet_balance
    pub timestamp_read : chain.latest_timestamp s ≡ ok timestamp

  module _ (a : Answers) where
    abbrev pub snapshot : Snapshot
    snapshot = record {
      address = reserve;
      symbol = a.symbol;
      decimals = a.decimals;
      reserve_factor = a.reserve_factor;
      available_liquidity = a.available_liquidity;
      total_liquidity = a.available_liquidity + a.numbers.unbacked;
      total_stable_debt = a.numbers.total_stable_debt;
      total_variable_debt = a.numbers.total_variable_debt;
      principal_stable_debt = a.principal_stable_debt;
      scaled_variable_debt = a.scaled_variable_debt;
      average_stable_borrow_rate = a.numbers.average_stable_borrow_rate;
      variable_borrow_rate = a.numbers.variable_borrow_rate;
      stable_borrow_rate = a.numbers.stable_borrow_rate;
      supply_usage_ratio =
          Formula.usage_ratio (a.numbers.total_stable_debt + a.numbers.total_variable_debt)
            (a.available_liquidity + a.numbers.unbacked);
      borrow_usage_ratio =
          Formula.usage_ratio (a.numbers.total_stable_debt + a.numbers.total_variable_debt)
            a.available_liquidity;
      liquidity_index = a.numbers.liquidity_index;
      variable_borrow_index = a.numbers.variable_borrow_index;
      h_token_address = a.tokens.h_token_address;
      market_stable_rate = a.base_stable_rate;
      last_update_timestamp = a.numbers.last_update_timestamp;
      total_stable_debt_last_updated = a.stable_debt_last_updated;
      liquidity_rate = a.numbers.liquidity_rate;
      unbacked = a.numbers.unbacked;
      accrued_to_treasury_scaled = a.numbers.accrued_to_treasury_scaled;
    }

    abbrev pub user_snapshot : UserSnapshot
    user_snapshot = record {
      scaled_h_token_balance = a.scaled_h_token_balance;
      current_h_token_balance = a.user_numbers.current_h_token_balance;
      current_stable_debt = a.user_numbers.current_stable_debt;
      current_variable_debt = a.user_numbers.current_variable_debt;
      principal_stable_debt = a.user_numbers.principal_stable_debt;
      scaled_variable_debt = a.user_numbers.scaled_variable_debt;
      liquidity_rate = a.user_numbers.liquidity_rate;
      stable_borrow_rate = a.user_numbers.stable_borrow_rate;
      stable_rate_last_updated = a.user_numbers.stable_rate_last_updated;
      usage_as_collateral_enabled = a.user_numbers.usage_as_collateral_enabled;
      wallet_balance = a.wallet_balance;
    }

    get_reserve_data-ok : get_reserve_data chain reserve s ≡ ok (reserve_of snapshot)
    unfolding get_reserve_data
    get_reserve_data-ok = rw (
      a.numbers_read,
      a.tokens_read,
      a.rate_strategy_read,
      a.reserve_factor_read,
      a.base_stable_rate_read,
      a.principal_read,
      a.last_updated_read,
      a.scaled_read,
      a.symbol_read,
      a.decimals_read,
      a.available_read,
      usage_ratio-pos (a.numbers.total_stable_debt + a.numbers.total_variable_debt)
          a.available_liquidity,
      usage_ratio-pos (a.numbers.total_stable_debt + a.numbers.total_variable_debt)
          (a.available_liquidity + a.numbers.unbacked),
      le→leb _ _ (
          usage_ratio_antitone (a.numbers.total_stable_debt + a.numbers.total_variable_debt)
            a.available_liquidity (a.available_liquidity + a.numbers.unbacked) (omega arith)),
    )

    get_user_data-ok :
        get_user_data chain reserve user (some (sender_or_user chain sender user)) s
        ≡ ok (user_of user_snapshot)
    unfolding get_user_data get_h_token_user_data
    get_user_data-ok = rw (a.user_read, a.tokens_read, a.scaled_balance_read, a.wallet_read)

    pub contracts_data-ok :
        get_contracts_data chain reserve user sender s
        ≡ ok (record {
          reserve_data = reserve_of snapshot;
          user_data = user_of user_snapshot;
          timestamp = pos a.timestamp;
        })
    unfolding get_contracts_data time_latest
    contracts_data-ok = rw (get_user_data-ok, get_reserve_data-ok, a.timestamp_read)

    pub snapshot-IsConsistent : IsConsistent (reserve_of snapshot)
    unfolding IsConsistent
    snapshot-IsConsistent = (
      pos a.available_liquidity,
      pos a.numbers.unbacked,
      pos a.numbers.total_stable_debt,
      pos a.numbers.total_variable_debt,
      _,
      _,
      refl,
      refl,
      refl,
      refl,
      refl,
      calc_expected_usage_ratios-pos a.numbers.total_stable_debt a.numbers.total_variable_debt
          a.available_liquidity (a.available_liquidity + a.numbers.unbacked) (omega arith),
      refl,
      refl,
    )
