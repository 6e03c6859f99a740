-- ===== src/Chain.antt =====
-- What the tests of the pool use of a running chain: the contracts' views, the transactions, and
-- the clock of the local node. The contracts and the node are the interface `Chain`. A view reads a
-- state; a transaction and the clock change it.
pub mod Reading
pub mod Answers
pub mod Snapshots
use Prim.Native.String.{String}
use lend_core.Prelude.{ℕ, Bool, Option, List}
use lend_core.Prelude.Int.{ℤ}
use lend_core.Prelude.Result.{Result, Error}
use lend_core.Types.{RateMode}
use lend_core.TypedData.{TypedData}
use lend_core.Events.{Log}

-- What `getReserveData` of the data provider answers; every number is a `uint256`.
pub record ReserveNumbers : Type 0 where
  pub unbacked : ℕ
  pub accrued_to_treasury_scaled : ℕ
  pub total_stable_debt : ℕ
  pub total_variable_debt : ℕ
  pub liquidity_rate : ℕ
  pub variable_borrow_rate : ℕ
  pub stable_borrow_rate : ℕ
  pub average_stable_borrow_rate : ℕ
  pub liquidity_index : ℕ
  pub variable_borrow_index : ℕ
  pub last_update_timestamp : ℕ

pub record TokenAddresses : Type 0 where
  pub h_token_address : String
  pub stable_debt_token_address : String
  pub variable_debt_token_address : String

-- What `getUserReserveData` of the data provider answers
pub record UserNumbers : Type 0 where
  pub current_h_token_balance : ℕ
  pub current_stable_debt : ℕ
  pub current_variable_debt : ℕ
  pub principal_stable_debt : ℕ
  pub scaled_variable_debt : ℕ
  pub stable_borrow_rate : ℕ
  pub liquidity_rate : ℕ
  pub stable_rate_last_updated : ℕ
  pub usage_as_collateral_enabled : Bool

-- `ECDSASignature`
pub record Signature : Type 0 where
  pub v : ℕ
  pub r : String
  pub s : String

-- The permit of a call: its deadline and the signature
pub record Permit : Type 0 where
  pub deadline : String
  pub signature : Signature

-- The transactions, each with the address of the account that signs it first, but for `mint`, which
-- the default account signs. An optional value is the `value` of the options.
pub data Call : Type 0 where
  mint : String → String → ℤ → Call
  approve : String → String → String → String → Call
  deposit : String → String → ℤ → String → Option ℤ → Call
  supply_with_permit : String → String → ℤ → String → Permit → Option ℤ → Call
  withdraw : String → String → ℤ → String → Call
  approve_delegation : String → String → String → String → Call
  borrow : String → String → ℤ → RateMode → String → Call
  repay : String → String → ℤ → RateMode → String → Option ℤ → Call
  repay_with_permit : String → String → ℤ → RateMode → String → Permit → Option ℤ → Call
  set_user_use_reserve_as_collateral : String → String → Bool → Call
  swap_borrow_rate_mode : String → String → RateMode → Call
  rebalance_stable_borrow_rate : String → String → String → Call
  supply : String → String → ℤ → String → Call
  transfer : String → String → String → ℤ → Call
  transfer_from : String → String → String → String → ℤ → Call

-- `ContractReceipt`: the fields that are read
pub record Receipt : Type 0 where
  pub block_number : Option ℕ
  pub transaction_hash : Option String
  pub cumulative_gas_used : Option ℤ
  pub effective_gas_price : ℤ
  pub logs : Option (List Log)

-- A transaction is mined, is refused by the contracts for a reason, or cannot be sent.
pub data Outcome : Type 0 where
  mined : Receipt → Outcome
  refused : String → Outcome
  unsent : Error → Outcome

pub record Chain : Type 1 where
  pub State : Type 0
  pub reserve_address : String → State → Result String
  pub reserve_numbers : String → State → Result ReserveNumbers
  pub pool_token_addresses : String → State → Result TokenAddresses
  pub token_addresses : String → State → Result TokenAddresses
  pub rate_strategy_address : String → State → Result String
  pub reserve_factor : String → State → Result ℕ
  pub base_stable_borrow_rate : String → State → Result ℕ
  pub principal_supply : String → State → Result ℕ
  pub total_supply_last_updated : String → State → Result ℕ
  pub scaled_total_supply : String → State → Result ℕ
  pub symbol : String → State → Result String
  pub decimals : String → State → Result ℕ
  pub balance_of : String → String → State → Result ℕ
  pub scaled_balance_of : String → String → State → Result ℕ
  pub user_numbers : String → String → State → Result UserNumbers
  pub borrow_allowance : String → String → String → State → Result ℕ
  pub previous_index : String → String → State → Result ℕ
  pub user_stable_rate : String → String → State → Result ℕ
  pub principal_balance_of : String → String → State → Result ℕ
  pub user_last_updated : String → String → State → Result ℕ
  pub average_stable_rate : String → State → Result ℕ
  pub normalized_income : String → State → Result ℕ
  pub normalized_variable_debt : String → State → Result ℕ
  pub nonce : String → String → State → Result ℕ
  pub chain_id : State → Result ℕ
  pub latest_timestamp : State → Result ℕ
  pub block_timestamp : ℕ → State → Result ℕ
  pub gas_price : String → State → Result (Option ℤ)
  pub send : Call → State → Outcome × State
  pub advance_time : ℤ → State → Result (Unit {0}) × State

-- What JavaScript and the packages of ethers do with texts: `parseUnits` and `BigNumber.from` read a number,
-- `toNumber` throws on one that is too large for JavaScript, `toString` and `toHexString` write
-- one, `toLowerCase` changes letters, and a private key signs typed
-- data; `matches` is the test of chai on the reason of a refusal.
pub record Ethers : Type 0 where
  pub parse_units : String → ℕ → Result ℤ
  pub read_number : String → Result ℤ
  pub to_number : ℤ → Result ℤ
  pub decimal : ℤ → String
  pub hex : ℤ → String
  pub lower_case : String → String
  pub sign : String → TypedData → Signature
  pub matches : String → String → Bool
