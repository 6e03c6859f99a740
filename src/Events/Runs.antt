-- ===== src/Events/Runs.antt =====
-- test-suites/helpers/utils/tokenization-events.ts: the eight actions of the token tests as runs over
-- the chain. Each reads what it needs, sends its transaction, and looks for the expected events in
-- the receipt. The option to print events is left out.
use Prim.Native.String.{String}
use lend_core.Prelude.{List, none, Bool}
use lend_core.Prelude.Int.{ℤ, pos}
use lend_core.Prelude.Result.{expect}
use lend_core.Prelude.Run.{Run, ◌>>=◌, ◌>>◌, return, view, pure}
use lend_core.BigNumber.{BigNumberApi}
use lend_core.Types.{RateMode}
use lend_core.Chain.{Call, Receipt}
use lend_core.Chain.Reading.{convert_to_currency_decimals}
use lend_core.Actions.{Suite, submit, await_mined, get_tx_cost_and_timestamp}
use lend_core.Events.{Builtins, EventContract}
use lend_core.Events.Tokens as Expect
use lend_core.Events.Tokens.{Token, Expected, StableAnswers}
use lend_core.Events.Transfers as Moves
use lend_core.Events.Transfers.{TransferAnswers, match_all}

-- What surrounds the actions: JavaScript, the interfaces of the tokens, and the check of the mock
-- hToken's event of a repayment by the payer, the debtor and the amount.
pub record Observer : Type 0 where
  pub builtins : Builtins
  pub contracts : Token → EventContract
  pub repayment_emitted : Receipt → String → String → ℤ → Bool

module _ ⦃big : BigNumberApi⦄ (suite : Suite) (observer : Observer) where
  open suite use {chain, ethers}

  -- `await tx.wait()`
  unfoldable pub mined_call : Call → Run chain.State Receipt
  unfolding submit await_mined
  mined_call call = do outcome ← submit suite call; await_mined outcome

  unfoldable pub check_events : Receipt → List Expected → Run chain.State Receipt
  unfolding match_all
  check_events receipt events = do
    pure (match_all observer.builtins observer.contracts receipt.logs events)
    return receipt

  module _ (user underlying amount_to_convert : String) where
    unfoldable pub supply : String → Run chain.State Receipt
    unfolding mined_call check_events Expect.supply convert_to_currency_decimals
    supply on_behalf_of = do
      amount ← view (convert_to_currency_decimals chain ethers underlying amount_to_convert)
      tokens ← view (chain.pool_token_addresses underlying)
      let h_address = tokens.h_token_address
      previous_index ← view (chain.previous_index h_address on_behalf_of)
      receipt ← mined_call (Call.supply user underlying amount on_behalf_of)
      index_after ← view (chain.normalized_income underlying)
      scaled ← view (chain.scaled_balance_of h_address on_behalf_of)
      events ← pure (
          Expect.supply user underlying h_address amount (pos previous_index) (pos index_after)
            on_behalf_of (pos scaled))
      check_events receipt events

    unfoldable pub withdraw : String → Run chain.State Receipt
    unfolding mined_call check_events Expect.withdraw convert_to_currency_decimals
    withdraw to = do
      amount ← view (convert_to_currency_decimals chain ethers underlying amount_to_convert)
      tokens ← view (chain.pool_token_addresses underlying)
      let h_address = tokens.h_token_address
      previous_index ← view (chain.previous_index h_address user)
      receipt ← mined_call (Call.withdraw user underlying amount to)
      index_after ← view (chain.normalized_income underlying)
      scaled ← view (chain.scaled_balance_of h_address user)
      events ← pure (
          Expect.withdraw user underlying h_address amount (pos previous_index) (pos index_after) to
            (pos scaled))
      check_events receipt events

    -- The indexes and balances that a transfer reads, around its transaction
    unfoldable pub transfer_answers :
        String → String → String → Call → Run chain.State (Receipt × TransferAnswers)
    unfolding mined_call
    transfer_answers h_address from to call = do
      from_previous ← view (chain.previous_index h_address from)
      to_previous ← view (chain.previous_index h_address to)
      receipt ← mined_call call
      index_after ← view (chain.normalized_income underlying)
      from_scaled ← view (chain.scaled_balance_of h_address from)
      to_scaled ← view (chain.scaled_balance_of h_address to)
      return (
        receipt,
        record {
          from_previous_index = pos from_previous;
          to_previous_index = pos to_previous;
          index_after = pos index_after;
          from_scaled_after = pos from_scaled;
          to_scaled_after = pos to_scaled;
        },
      )

    unfoldable pub transfer : String → Run chain.State Receipt
    unfolding transfer_answers check_events Moves.transfer convert_to_currency_decimals
    transfer to = do
      amount ← view (convert_to_currency_decimals chain ethers underlying amount_to_convert)
      tokens ← view (chain.pool_token_addresses underlying)
      let h_address = tokens.h_token_address
      (receipt, a) ← transfer_answers h_address user to (Call.transfer user h_address to amount)
      events ← pure (Moves.transfer user h_address to amount a)
      check_events receipt events

    unfoldable pub transfer_from : String → String → Run chain.State Receipt
    unfolding transfer_answers check_events Moves.transfer_from convert_to_currency_decimals
    transfer_from origin to = do
      amount ← view (convert_to_currency_decimals chain ethers underlying amount_to_convert)
      tokens ← view (chain.pool_token_addresses underlying)
      let h_address = tokens.h_token_address
      (receipt, a) ←
          transfer_answers h_address origin to (Call.transfer_from user h_address origin to amount)
      events ← pure (Moves.transfer_from user origin h_address to amount a)
      check_events receipt events

    unfoldable pub variable_borrow : String → Run chain.State Receipt
    unfolding mined_call check_events Expect.variable_borrow convert_to_currency_decimals
    variable_borrow on_behalf_of = do
      amount ← view (convert_to_currency_decimals chain ethers underlying amount_to_convert)
      tokens ← view (chain.pool_token_addresses underlying)
      let debt = tokens.variable_debt_token_address
      previous_index ← view (chain.previous_index debt on_behalf_of)
      receipt ← mined_call (Call.borrow user underlying amount RateMode.variable on_behalf_of)
      index_after ← view (chain.normalized_variable_debt underlying)
      scaled ← view (chain.scaled_balance_of debt on_behalf_of)
      events ← pure (
          Expect.variable_borrow user underlying tokens.h_token_address amount (pos previous_index)
            (pos index_after) debt on_behalf_of (pos scaled))
      check_events receipt events

    unfoldable pub repay_variable_borrow : String → Run chain.State Receipt
    unfolding mined_call check_events Expect.repay_variable_borrow convert_to_currency_decimals
    repay_variable_borrow on_behalf_of = do
      amount ← view (convert_to_currency_decimals chain ethers underlying amount_to_convert)
      tokens ← view (chain.pool_token_addresses underlying)
      let debt = tokens.variable_debt_token_address
      previous_index ← view (chain.previous_index debt on_behalf_of)
      receipt ← mined_call (Call.repay user underlying amount RateMode.variable on_behalf_of none)
      pure (expect (observer.repayment_emitted receipt user on_behalf_of amount))
      index_after ← view (chain.normalized_variable_debt underlying)
      scaled ← view (chain.scaled_balance_of debt on_behalf_of)
      events ← pure (
          Expect.repay_variable_borrow user underlying tokens.h_token_address amount
            (pos previous_index) (pos index_after) debt on_behalf_of (pos scaled))
      check_events receipt events

    -- What the two actions on stable debt read, around their transaction
    unfoldable pub stable_answers :
        String → String → Call → Run chain.State (Receipt × StableAnswers)
    unfolding mined_call get_tx_cost_and_timestamp
    stable_answers debt on_behalf_of call = do
      principal ← view (chain.principal_balance_of debt on_behalf_of)
      previous_rate ← view (chain.user_stable_rate debt on_behalf_of)
      last_timestamp ← view (chain.user_last_updated debt on_behalf_of)
      receipt ← mined_call call
      (tx_cost, tx_timestamp) ← get_tx_cost_and_timestamp suite receipt
      average_rate ← view (chain.average_stable_rate debt)
      rate_after ← view (chain.user_stable_rate debt on_behalf_of)
      total_supply ← view (chain.principal_supply debt)
      return (
        receipt,
        record {
          principal_balance = pos principal;
          previous_rate = pos previous_rate;
          last_timestamp = pos last_timestamp;
          tx_timestamp = tx_timestamp;
          average_rate = pos average_rate;
          rate_after = pos rate_after;
          total_supply = pos total_supply;
        },
      )

    unfoldable pub stable_borrow : String → Run chain.State Receipt
    unfolding stable_answers check_events Expect.stable_borrow convert_to_currency_decimals
    stable_borrow on_behalf_of = do
      amount ← view (convert_to_currency_decimals chain ethers underlying amount_to_convert)
      tokens ← view (chain.pool_token_addresses underlying)
      let debt = tokens.stable_debt_token_address
      (receipt, a) ←
          stable_answers debt on_behalf_of
            (Call.borrow user underlying amount RateMode.stable on_behalf_of)
      events ←
          pure
            (Expect.stable_borrow user underlying tokens.h_token_address debt on_behalf_of amount a)
      check_events receipt events

    unfoldable pub repay_stable_borrow : String → Run chain.State Receipt
    unfolding stable_answers check_events Expect.repay_stable_borrow convert_to_currency_decimals
    repay_stable_borrow on_behalf_of = do
      amount ← view (convert_to_currency_decimals chain ethers underlying amount_to_convert)
      tokens ← view (chain.pool_token_addresses underlying)
      let debt = tokens.stable_debt_token_address
      (receipt, a) ←
          stable_answers debt on_behalf_of
            (Call.repay user underlying amount RateMode.stable on_behalf_of none)
      events ← pure (
          Expect.repay_stable_borrow user underlying tokens.h_token_address debt on_behalf_of amount
            a)
      check_events receipt events
