-- ===== src/Actions/Debt.antt =====
-- test-suites/helpers/actions.ts: `delegateBorrowAllowance`, `borrow`, `repay` and
-- `repayWithPermit`.
use Prim.Native.String.{String}
use package.text.Mathlib.Text.{◌==◌ as str_eq}
use lend_core.Prelude.{Option, none, some, if◌then◌else◌}
use lend_core.Prelude.Int.{ℤ, pos}
use lend_core.Prelude.Result.{expect, assertion_failed}
use lend_core.Prelude.Run.{Run, ◌>>=◌, ◌>>◌, return, throw, view, pure}
use lend_core.BigNumber.{BigNumberApi}
use lend_core.Types.{RateMode}
use lend_core.TypedData.{build_permit_params}
use lend_core.Reserve.Borrow.{calc_expected_reserve_data_after_borrow}
use lend_core.Reserve.Repay.{calc_expected_reserve_data_after_repay}
use lend_core.User.Debt.{calc_expected_user_data_after_borrow, calc_expected_user_data_after_repay}
use lend_core.Chain.{Call, TokenAddresses, Outcome, mined, refused, unsent}
use lend_core.Chain.Reading.{ContractsData, get_contracts_data, convert_to_currency_decimals}
use lend_core.Actions.{
  Suite, submit, await_mined, expect_reverted, by_expected_result, get_tx_cost_and_timestamp, given,
  value_to_send, travel, amount_or_all, expect_reserve, expect_user,
}
use lend_core.Actions.Supply.{high_deadline, with_deadline}

-- `interestRateMode === '1' ? stable : variable`
unfoldable pub debt_token : RateMode → TokenAddresses → String
debt_token RateMode.stable tokens = tokens.stable_debt_token_address
debt_token RateMode.variable tokens = tokens.variable_debt_token_address
debt_token RateMode.rate_none tokens = tokens.variable_debt_token_address
debt_token (RateMode.improper text) tokens = tokens.variable_debt_token_address

module _ ⦃big : BigNumberApi⦄ (suite : Suite) where
  open big use {sub, eq}
  open suite use {chain, ethers, reserves_params, pool_address}

  -- `to.be.revertedWith(message)`
  unfoldable pub expect_reverted_with : String → Outcome → Run chain.State (Unit {0})
  expect_reverted_with message (mined receipt) = throw assertion_failed
  expect_reverted_with message (refused reason) = pure (expect (ethers.matches message reason))
  expect_reverted_with message (unsent e) = throw assertion_failed

  -- The message of a delegation that must be refused; without one it must succeed.
  unfoldable pub refusal : String → Option String → Option String
  unfolding given
  refusal expected_result revert_message =
      if str_eq expected_result "revert" then given revert_message else none

  unfoldable pub delegate_borrow_allowance :
      String
      → String
      → RateMode
      → String
      → String
      → String
      → Option String
      → Run chain.State (Unit {0})
  unfolding submit await_mined expect_reverted_with refusal debt_token convert_to_currency_decimals
  delegate_borrow_allowance reserve amount interest_rate_mode user receiver expected_result
        revert_message =
      do
        reserve_address ← view (chain.reserve_address reserve)
        number ← view (convert_to_currency_decimals chain ethers reserve_address amount)
        let amount_to_delegate = ethers.decimal number
        tokens ← view (chain.pool_token_addresses reserve_address)
        let token = debt_token interest_rate_mode tokens
        outcome ← submit suite (Call.approve_delegation user token receiver amount_to_delegate)
        elim (refusal expected_result revert_message) [
          | some message ↦ expect_reverted_with message outcome
          | none ↦ do
            receipt ← await_mined outcome
            allowance ← view (chain.borrow_allowance token user receiver)
            pure (expect (str_eq (ethers.decimal (pos allowance)) amount_to_delegate))
        ]

  -- The check of the allowance, where one borrows on behalf of another
  unfoldable pub expect_allowance : String → String → String → ℤ → ℤ → Run chain.State (Unit {0})
  expect_allowance token user on_behalf_of allowance_before amount =
      if str_eq user on_behalf_of then return tt else do
        allowance ← view (chain.borrow_allowance token on_behalf_of user)
        pure (expect (eq (pos allowance) (sub allowance_before amount)))

  unfoldable pub borrow :
      String
      → String
      → RateMode
      → String
      → String
      → Option String
      → String
      → Run chain.State (Unit {0})
  unfolding submit await_mined expect_reverted by_expected_result convert_to_currency_decimals
      get_contracts_data get_tx_cost_and_timestamp travel debt_token expect_allowance
      calc_expected_reserve_data_after_borrow calc_expected_user_data_after_borrow expect_reserve
      expect_user
  borrow reserve_symbol amount interest_rate_mode user on_behalf_of time_travel expected_result = do
    reserve ← view (chain.reserve_address reserve_symbol)
    before ← view (get_contracts_data chain reserve on_behalf_of (some user))
    tokens ← view (chain.token_addresses reserve)
    let token = debt_token interest_rate_mode tokens
    allowance_before ← view (chain.borrow_allowance token on_behalf_of user)
    amount_to_borrow ← view (convert_to_currency_decimals chain ethers reserve amount)
    outcome ←
        submit suite (Call.borrow user reserve amount_to_borrow interest_rate_mode on_behalf_of)
    by_expected_result expected_result
        (do
          tx_result ← await_mined outcome
          (tx_cost, tx_timestamp) ← get_tx_cost_and_timestamp suite tx_result
          travel suite time_travel
          after ← view (get_contracts_data chain reserve on_behalf_of (some user))
          expected_reserve ← pure (
              calc_expected_reserve_data_after_borrow reserves_params amount_to_borrow
                interest_rate_mode before.reserve_data tx_timestamp after.timestamp)
          expected_user ← pure (
              calc_expected_user_data_after_borrow amount_to_borrow interest_rate_mode
                before.reserve_data expected_reserve before.user_data tx_timestamp after.timestamp)
          expect_reserve suite after.reserve_data expected_reserve
          expect_user suite after.user_data expected_user
          expect_allowance token user on_behalf_of (pos allowance_before) amount_to_borrow)
        (expect_reverted outcome)

  -- The branch of a repayment that must succeed
  unfoldable pub repay_succeeds :
      String → ℤ → RateMode → String → String → ContractsData → Call → Run chain.State (Unit {0})
  unfolding submit await_mined get_contracts_data get_tx_cost_and_timestamp
      calc_expected_reserve_data_after_repay calc_expected_user_data_after_repay expect_reserve
      expect_user
  repay_succeeds reserve amount_to_repay rate_mode user on_behalf_of before call = do
    outcome ← submit suite call
    tx_result ← await_mined outcome
    (tx_cost, tx_timestamp) ← get_tx_cost_and_timestamp suite tx_result
    after ← view (get_contracts_data chain reserve on_behalf_of none)
    expected_reserve ← pure (
        calc_expected_reserve_data_after_repay reserves_params amount_to_repay rate_mode
          before.reserve_data before.user_data tx_timestamp)
    expected_user ← pure (
        calc_expected_user_data_after_repay amount_to_repay rate_mode before.reserve_data
          expected_reserve before.user_data user on_behalf_of tx_timestamp after.timestamp)
    expect_reserve suite after.reserve_data expected_reserve
    expect_user suite after.user_data expected_user

  unfoldable pub repay :
      String
      → String
      → RateMode
      → String
      → String
      → Option String
      → String
      → Option String
      → Run chain.State (Unit {0})
  unfolding submit expect_reverted by_expected_result get_contracts_data amount_or_all value_to_send
      travel repay_succeeds
  repay reserve_symbol amount rate_mode user on_behalf_of send_value expected_result time_travel =
      do
        reserve ← view (chain.reserve_address reserve_symbol)
        before ← view (get_contracts_data chain reserve on_behalf_of none)
        amount_to_repay ← amount_or_all suite reserve amount
        value ← value_to_send suite reserve send_value
        travel suite time_travel
        let call = Call.repay user reserve amount_to_repay rate_mode on_behalf_of value
        by_expected_result expected_result
            (repay_succeeds reserve amount_to_repay rate_mode user on_behalf_of before call)
            (do outcome ← submit suite call; expect_reverted outcome)

  unfoldable pub repay_with_permit :
      String
      → String
      → RateMode
      → String
      → String
      → String
      → Option String
      → String
      → Run chain.State (Unit {0})
  unfolding submit expect_reverted by_expected_result get_contracts_data amount_or_all value_to_send
      repay_succeeds build_permit_params
  repay_with_permit reserve_symbol amount rate_mode user user_pk on_behalf_of send_value
        expected_result =
      do
        reserve ← view (chain.reserve_address reserve_symbol)
        before ← view (get_contracts_data chain reserve on_behalf_of none)
        amount_to_repay ← amount_or_all suite reserve amount
        chain_id ← view chain.chain_id
        nonce ← view (chain.nonce reserve user)
        let msg_params =
            build_permit_params chain_id reserve "1" reserve_symbol user pool_address nonce
              high_deadline (ethers.hex amount_to_repay)
        let permit = with_deadline (ethers.sign user_pk msg_params)
        value ← value_to_send suite reserve send_value
        let call =
            Call.repay_with_permit user reserve amount_to_repay rate_mode on_behalf_of permit value
        by_expected_result expected_result
            (repay_succeeds reserve amount_to_repay rate_mode user on_behalf_of before call)
            (do outcome ← submit suite call; expect_reverted outcome)
