-- ===== src/Actions.antt =====
-- test-suites/helpers/actions.ts: the actions of a test. Each reads the data of the reserve and of
-- the user, sends a transaction, reads the data again, and compares it with the calculated data.
-- This file has what the actions share; `Suite` is what surrounds them.
pub mod Supply
pub mod Debt
pub mod Modes
pub mod Steps
pub mod Passing
pub mod Ignoring
pub mod Calls
pub mod Refusing
use Prim.Native.String.{String}
use package.text.Mathlib.Text.{◌==◌ as str_eq}
use lend_core.Prelude.{ℕ, Option, none, some, Bool, if◌then◌else◌, ◌||◌, ◌==◌}
use lend_core.Prelude.Int.{ℤ, pos}
use lend_core.Prelude.Result.{Result, ok, err, thrown, reverted, assertion_failed}
use lend_core.Prelude.Result
use lend_core.Prelude.Run.{Run, ◌>>=◌, ◌>>◌, return, throw, view, pure}
use lend_core.BigNumber.{BigNumberApi}
use lend_core.Constants.{one_year, max_uint_amount}
use lend_core.Types.{ReserveData, UserReserveData, Configuration}
use lend_core.Comparison.{Conversions, expect_equal, reserve_object, user_object}
use lend_core.Chain.{Chain, Ethers, Call, Receipt, Outcome, mined, refused, unsent}
use lend_core.Chain.Reading.{
  get_reserve_data, get_user_data, sender_or_user, time_latest, convert_to_currency_decimals,
}

-- The chain, the packages, the configuration of the reserves, and `skipIntegrityCheck`.
pub record Suite : Type 1 where
  pub chain : Chain
  pub ethers : Ethers
  pub conversions : Conversions
  pub reserves_params : Configuration
  pub skip_integrity_check : Bool
  pub pool_address : String

-- A transaction that is awaited, and one that must be refused.
unfoldable pub await_mined : {State : Type 0} → Outcome → Run State Receipt
await_mined (mined receipt) = return receipt
await_mined (refused reason) = throw reverted
await_mined (unsent e) = throw e

unfoldable pub expect_reverted : {State : Type 0} → Outcome → Run State (Unit {0})
expect_reverted (mined receipt) = throw assertion_failed
expect_reverted (refused reason) = return tt
expect_reverted (unsent e) = throw e

-- `if (expectedResult === 'success') … else if (expectedResult === 'revert') …`
unfoldable pub by_expected_result :
    {State : Type 0} → String → Run State (Unit {0}) → Run State (Unit {0}) → Run State (Unit {0})
by_expected_result expected_result success revert =
    if str_eq expected_result "success"
    then success
    else if str_eq expected_result "revert"
    then revert
    else return tt

-- An optional text that is given and not empty
unfoldable pub given : Option String → Option String
given none = none
given (some text) = if str_eq text "" then none else some text

-- `if (!a) throw …`
abbrev pub required {ℓ} : {A : Type ℓ} → String → Option A → Result A
required message none = err (thrown message)
required message (some a) = ok a

-- The fields of a receipt, unless one is `undefined`, 0 or empty
unfoldable pub all_given : Option ℕ → Option String → Option ℤ → Option (ℕ × String × ℤ)
all_given (some block) (some hash) (some gas) =
    if block == 0 || str_eq hash "" then none else some (block, hash, gas)
all_given (some block) (some hash) none = none
all_given (some block) none gas = none
all_given none hash gas = none

-- `a ? a : b`
abbrev pub get_or_else : {A : Type 0} → A → Option A → A
get_or_else b none = b
get_or_else b (some a) = a

module _ ⦃big : BigNumberApi⦄ (suite : Suite) where
  open big use {mul, div}
  open suite use {chain, ethers, conversions}

  unfoldable pub submit : Call → Run chain.State Outcome
  submit call s = let (outcome, t) = chain.send call s in (ok outcome, t)

  unfoldable pub get_tx_cost_and_timestamp : Receipt → Run chain.State (ℤ × ℤ)
  unfolding all_given
  get_tx_cost_and_timestamp receipt = do
    (block, hash, gas) ← pure (
        required "No tx blocknumber"
          (all_given receipt.block_number receipt.transaction_hash receipt.cumulative_gas_used))
    timestamp ← view (chain.block_timestamp block)
    gas_price ← view (chain.gas_price hash)
    return (mul gas (get_or_else receipt.effective_gas_price gas_price), pos timestamp)

  unfoldable pub converted : String → Option String → Run chain.State (Option ℤ)
  unfolding convert_to_currency_decimals
  converted reserve none = return none
  converted reserve (some value) = do
    amount ← view (convert_to_currency_decimals chain ethers reserve value)
    return (some amount)

  -- `if (sendValue) …`: a text that is given and not empty
  unfoldable pub value_to_send : String → Option String → Run chain.State (Option ℤ)
  unfolding converted
  value_to_send reserve send_value = converted reserve (given send_value)

  -- `if (timeTravel) …`: the clock advances by a number of days.
  unfoldable pub travel_days : Option String → Run chain.State (Unit {0})
  travel_days none = return tt
  travel_days (some days) = do
    number ← pure (ethers.read_number days)
    seconds ← pure (div (mul number (pos one_year)) (pos 365))
    seconds_to_travel ← pure (ethers.to_number seconds)
    chain.advance_time seconds_to_travel

  unfoldable pub travel : Option String → Run chain.State (Unit {0})
  unfolding travel_days
  travel time_travel = travel_days (given time_travel)

  -- The amount of a withdrawal or of a repayment, where '-1' is all
  unfoldable pub amount_or_all : String → String → Run chain.State ℤ
  unfolding convert_to_currency_decimals
  amount_or_all reserve amount =
      if str_eq amount "-1"
      then return (pos max_uint_amount)
      else view (convert_to_currency_decimals chain ethers reserve amount)

  -- The comparisons that end an action
  unfoldable pub expect_reserve : ReserveData → ReserveData → Run chain.State (Unit {0})
  unfolding expect_equal reserve_object
  expect_reserve actual expected = pure (
      expect_equal conversions suite.skip_integrity_check (reserve_object actual)
        (reserve_object expected))

  unfoldable pub expect_user : UserReserveData → UserReserveData → Run chain.State (Unit {0})
  unfolding expect_equal user_object
  expect_user actual expected = pure (
      expect_equal conversions suite.skip_integrity_check (user_object actual)
        (user_object expected))
