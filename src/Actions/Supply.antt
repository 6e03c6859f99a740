-- ===== src/Actions/Supply.antt =====
-- test-suites/helpers/actions.ts: `mint`, `approve`, `deposit`, `withdraw` and `supplyWithPermit`.
use Prim.Native.String.{String}
use lend_core.Prelude.{Option, none, some}
use lend_core.Prelude.Int.{ℤ}
use lend_core.Prelude.Run.{Run, ◌>>=◌, ◌>>◌, return, view, pure}
use lend_core.BigNumber.{BigNumberApi}
use lend_core.TypedData.{build_permit_params}
use lend_core.Reserve.Liquidity.{
  calc_expected_reserve_data_after_deposit, calc_expected_reserve_data_after_withdraw,
}
use lend_core.User.Supply.{
  calc_expected_user_data_after_deposit, calc_expected_user_data_after_withdraw,
}
use lend_core.Chain.{Call, Permit, Signature}
use lend_core.Chain.Reading.{ContractsData, get_contracts_data, convert_to_currency_decimals}
use lend_core.Actions.{
  Suite, submit, await_mined, expect_reverted, by_expected_result, get_tx_cost_and_timestamp,
  value_to_send, amount_or_all, expect_reserve, expect_user,
}

abbrev pub high_deadline : String
high_deadline = "100000000000000000000000000"

abbrev pub with_deadline : Signature → Permit
with_deadline signature = record { deadline = high_deadline; signature = signature }

module _ ⦃big : BigNumberApi⦄ (suite : Suite) where
  open suite use {chain, ethers, reserves_params, pool_address}

  unfoldable pub mint : String → String → String → Run chain.State (Unit {0})
  unfolding submit await_mined convert_to_currency_decimals
  mint reserve_symbol amount user = do
    reserve ← view (chain.reserve_address reserve_symbol)
    amount_to_mint ← view (convert_to_currency_decimals chain ethers reserve amount)
    outcome ← submit suite (Call.mint reserve user amount_to_mint)
    receipt ← await_mined outcome
    return tt

  unfoldable pub approve : String → String → Run chain.State (Unit {0})
  unfolding submit await_mined
  approve reserve_symbol user = do
    reserve ← view (chain.reserve_address reserve_symbol)
    outcome ← submit suite (Call.approve user reserve pool_address "100000000000000000000000000000")
    receipt ← await_mined outcome
    return tt

  -- The branch of a deposit that must succeed
  unfoldable pub deposit_succeeds :
      String → ℤ → String → String → ContractsData → Call → Run chain.State (Unit {0})
  unfolding submit await_mined get_contracts_data get_tx_cost_and_timestamp
      calc_expected_reserve_data_after_deposit calc_expected_user_data_after_deposit expect_reserve
      expect_user
  deposit_succeeds reserve amount_to_deposit sender on_behalf_of before call = do
    outcome ← submit suite call
    tx_result ← await_mined outcome
    after ← view (get_contracts_data chain reserve on_behalf_of (some sender))
    (tx_cost, tx_timestamp) ← get_tx_cost_and_timestamp suite tx_result
    expected_reserve ← pure (
        calc_expected_reserve_data_after_deposit reserves_params amount_to_deposit
          before.reserve_data tx_timestamp)
    expected_user ← pure (
        calc_expected_user_data_after_deposit amount_to_deposit before.reserve_data expected_reserve
          before.user_data tx_timestamp)
    expect_reserve suite after.reserve_data expected_reserve
    expect_user suite after.user_data expected_user

  unfoldable pub deposit :
      String → String → String → String → Option String → String → Run chain.State (Unit {0})
  unfolding submit expect_reverted by_expected_result convert_to_currency_decimals
      get_contracts_data value_to_send deposit_succeeds
  deposit reserve_symbol amount sender on_behalf_of send_value expected_result = do
    reserve ← view (chain.reserve_address reserve_symbol)
    amount_to_deposit ← view (convert_to_currency_decimals chain ethers reserve amount)
    before ← view (get_contracts_data chain reserve on_behalf_of (some sender))
    value ← value_to_send suite reserve send_value
    let call = Call.deposit sender reserve amount_to_deposit on_behalf_of value
    by_expected_result expected_result
        (deposit_succeeds reserve amount_to_deposit sender on_behalf_of before call)
        (do outcome ← submit suite call; expect_reverted outcome)

  unfoldable pub supply_with_permit :
      String
      → String
      → String
      → String
      → String
      → Option String
      → String
      → Run chain.State (Unit {0})
  unfolding submit expect_reverted by_expected_result convert_to_currency_decimals
      get_contracts_data value_to_send deposit_succeeds build_permit_params
  supply_with_permit reserve_symbol amount sender sender_pk on_behalf_of send_value
        expected_result =
      do
        reserve ← view (chain.reserve_address reserve_symbol)
        amount_to_deposit ← view (convert_to_currency_decimals chain ethers reserve amount)
        chain_id ← view chain.chain_id
        nonce ← view (chain.nonce reserve sender)
        let msg_params =
            build_permit_params chain_id reserve "1" reserve_symbol sender pool_address nonce
              high_deadline (ethers.decimal amount_to_deposit)
        let permit = with_deadline (ethers.sign sender_pk msg_params)
        before ← view (get_contracts_data chain reserve on_behalf_of (some sender))
        value ← value_to_send suite reserve send_value
        let call =
            Call.supply_with_permit sender reserve amount_to_deposit on_behalf_of permit value
        by_expected_result expected_result
            (deposit_succeeds reserve amount_to_deposit sender on_behalf_of before call)
            (do outcome ← submit suite call; expect_reverted outcome)

  -- The branch of a withdrawal that must succeed
  unfoldable pub withdraw_succeeds :
      String → ℤ → String → ContractsData → Call → Run chain.State (Unit {0})
  unfolding submit await_mined get_contracts_data get_tx_cost_and_timestamp
      calc_expected_reserve_data_after_withdraw calc_expected_user_data_after_withdraw
      expect_reserve expect_user
  withdraw_succeeds reserve amount_to_withdraw user before call = do
    outcome ← submit suite call
    tx_result ← await_mined outcome
    after ← view (get_contracts_data chain reserve user none)
    (tx_cost, tx_timestamp) ← get_tx_cost_and_timestamp suite tx_result
    expected_reserve ← pure (
        calc_expected_reserve_data_after_withdraw reserves_params amount_to_withdraw
          before.reserve_data before.user_data tx_timestamp)
    expected_user ← pure (
        calc_expected_user_data_after_withdraw amount_to_withdraw before.reserve_data
          expected_reserve before.user_data tx_timestamp)
    expect_reserve suite after.reserve_data expected_reserve
    expect_user suite after.user_data expected_user

  -- `getDataBeforeAction`, less the hToken that no caller uses
  unfoldable pub get_data_before_action : String → String → Run chain.State (String × ContractsData)
  unfolding get_contracts_data
  get_data_before_action reserve_symbol user = do
    reserve ← view (chain.reserve_address reserve_symbol)
    before ← view (get_contracts_data chain reserve user none)
    return (reserve, before)

  unfoldable pub withdraw : String → String → String → String → Run chain.State (Unit {0})
  unfolding submit expect_reverted by_expected_result get_data_before_action amount_or_all
      withdraw_succeeds
  withdraw reserve_symbol amount user expected_result = do
    (reserve, before) ← get_data_before_action reserve_symbol user
    amount_to_withdraw ← amount_or_all suite reserve amount
    let call = Call.withdraw user reserve amount_to_withdraw user
    by_expected_result expected_result
        (withdraw_succeeds reserve amount_to_withdraw user before call)
        (do outcome ← submit suite call; expect_reverted outcome)
