-- ===== src/Scenario/Dispatch.antt =====
-- test-suites/helpers/scenario-engine.ts: `executeAction`. An account is looked up where its action
-- is called; the source reads the address of an account that does not exist a few views later.
use Prim.Native.String.{String, ◌++◌}
use package.text.Mathlib.Text.{◌==◌ as str_eq}
use lend_core.Prelude.{Option, if◌then◌else◌}
use lend_core.Prelude.Result.{defined, thrown}
use lend_core.Prelude.Run.{Run, ◌>>=◌, throw, pure}
use lend_core.BigNumber.{BigNumberApi}
use lend_core.Types.{RateMode}
use lend_core.Actions.{Suite, given, required}
use lend_core.Actions.Supply.{mint, approve, deposit, withdraw, supply_with_permit}
use lend_core.Actions.Debt.{delegate_borrow_allowance, borrow, repay, repay_with_permit}
use lend_core.Actions.Modes.{
  set_use_as_collateral, swap_borrow_rate_mode, rebalance_stable_borrow_rate,
}
use lend_core.Scenario.{Arguments, Action, Users, at, plus_one, parsed, mode_of, chosen}

module _ ⦃big : BigNumberApi⦄ (suite : Suite) (users : Users) where
  open suite use {chain}

  module _ (reserve expected : String) (user : Option String) (args : Arguments) where
    unfoldable pub run_mint : Run chain.State (Unit {0})
    unfolding given mint
    run_mint = do
      amount ← pure (required ("Invalid amount of " ++ reserve ++ " to mint") (given args.amount))
      account ← pure (defined user)
      mint suite reserve amount account

    unfoldable pub run_approve : Run chain.State (Unit {0})
    unfolding approve
    run_approve = do account ← pure (defined user); approve suite reserve account

    abbrev invalid_deposit : String
    invalid_deposit = "Invalid amount to deposit into the " ++ reserve ++ " reserve"

    unfoldable pub run_deposit : Run chain.State (Unit {0})
    unfolding given chosen deposit
    run_deposit = do
      on_behalf_of ← pure (defined (chosen users (given args.on_behalf_of) user))
      amount ← pure (required invalid_deposit (given args.amount))
      account ← pure (defined user)
      deposit suite reserve amount account on_behalf_of args.send_value expected

    unfoldable pub run_supply_with_permit : String → Run chain.State (Unit {0})
    unfolding given chosen supply_with_permit
    run_supply_with_permit secret_key = do
      on_behalf_of ← pure (defined (chosen users (given args.on_behalf_of) user))
      amount ← pure (required invalid_deposit (given args.amount))
      account ← pure (defined user)
      supply_with_permit suite reserve amount account secret_key on_behalf_of args.send_value
          expected

    unfoldable pub run_delegate : RateMode → Option String → Run chain.State (Unit {0})
    unfolding given at parsed delegate_borrow_allowance
    run_delegate rate_mode revert_message = do
      to_user ← pure (defined (at users.addresses (parsed users args.to_user)))
      amount ← pure (required invalid_deposit (given args.amount))
      account ← pure (defined user)
      delegate_borrow_allowance suite reserve amount rate_mode account to_user expected
          revert_message

    unfoldable pub run_withdraw : Run chain.State (Unit {0})
    unfolding given withdraw
    run_withdraw = do
      amount ← pure (
          required ("Invalid amount to withdraw from the " ++ reserve ++ " reserve")
            (given args.amount))
      account ← pure (defined user)
      withdraw suite reserve amount account expected

    unfoldable pub run_borrow : RateMode → Run chain.State (Unit {0})
    unfolding given chosen borrow
    run_borrow rate_mode = do
      on_behalf_of ← pure (defined (chosen users (given args.on_behalf_of) user))
      amount ← pure (
          required ("Invalid amount to borrow from the " ++ reserve ++ " reserve")
            (given args.amount))
      account ← pure (defined user)
      borrow suite reserve amount rate_mode account on_behalf_of args.time_travel expected

    abbrev invalid_repay : String
    invalid_repay = "Invalid amount to repay into the " ++ reserve ++ " reserve"

    unfoldable pub run_repay : RateMode → Run chain.State (Unit {0})
    unfolding given chosen repay
    run_repay rate_mode = do
      amount ← pure (required invalid_repay (given args.amount))
      account ← pure (defined user)
      on_behalf_of ← pure (defined (chosen users (given args.on_behalf_of) user))
      repay suite reserve amount rate_mode account on_behalf_of args.send_value expected
          args.time_travel

    unfoldable pub run_repay_with_permit : RateMode → String → Run chain.State (Unit {0})
    unfolding given chosen repay_with_permit
    run_repay_with_permit rate_mode secret_key = do
      amount ← pure (required invalid_repay (given args.amount))
      account ← pure (defined user)
      on_behalf_of ← pure (defined (chosen users (given args.on_behalf_of) user))
      repay_with_permit suite reserve amount rate_mode account secret_key on_behalf_of
          args.send_value expected

    unfoldable pub run_set_use_as_collateral : Run chain.State (Unit {0})
    unfolding given set_use_as_collateral
    run_set_use_as_collateral = do
      use_as_collateral ← pure (
          required
            ("A valid value for useAsCollateral needs to be set when calling "
              ++ "setUseReserveAsCollateral on reserve " ++ reserve)
            (given args.use_as_collateral))
      account ← pure (defined user)
      set_use_as_collateral suite reserve account use_as_collateral expected

    unfoldable pub run_swap : RateMode → Run chain.State (Unit {0})
    unfolding swap_borrow_rate_mode
    run_swap rate_mode = do
      account ← pure (defined user)
      swap_borrow_rate_mode suite reserve account rate_mode expected

    unfoldable pub run_rebalance : Run chain.State (Unit {0})
    unfolding given at rebalance_stable_borrow_rate
    run_rebalance = do
      index ← pure (
          required "A target must be selected when trying to rebalance a stable rate"
            (given args.target))
      target ← pure (defined (at users.addresses (users.parse_int index)))
      account ← pure (defined user)
      rebalance_stable_borrow_rate suite reserve account target expected

    -- The `switch` on the name
    unfoldable pub dispatch :
        String → RateMode → String → Option String → Run chain.State (Unit {0})
    unfolding run_mint run_approve run_deposit run_supply_with_permit run_delegate run_withdraw
        run_borrow run_repay run_repay_with_permit run_set_use_as_collateral run_swap run_rebalance
    dispatch name rate_mode secret_key revert_message =
        if str_eq name "mint"
        then run_mint
        else if str_eq name "approve"
        then run_approve
        else if str_eq name "deposit"
        then run_deposit
        else if str_eq name "supplyWithPermit"
        then run_supply_with_permit secret_key
        else if str_eq name "delegateBorrowAllowance"
        then run_delegate rate_mode revert_message
        else if str_eq name "withdraw"
        then run_withdraw
        else if str_eq name "borrow"
        then run_borrow rate_mode
        else if str_eq name "repay"
        then run_repay rate_mode
        else if str_eq name "repayWithPermit"
        then run_repay_with_permit rate_mode secret_key
        else if str_eq name "setUseAsCollateral"
        then run_set_use_as_collateral
        else if str_eq name "swapBorrowRateMode"
        then run_swap rate_mode
        else if str_eq name "rebalanceStableBorrowRate"
        then run_rebalance
        else throw (thrown ("Invalid action requested: " ++ name))

  unfoldable pub execute_action : Action → Run chain.State (Unit {0})
  unfolding given at plus_one mode_of dispatch
  execute_action action = do
    args ← pure (defined action.args)
    name ← pure (required "Action name is missing" (given action.name))
    reserve ← pure (required "Invalid reserve selected for deposit" (given args.reserve))
    index ← pure (
        required ("Invalid user selected to deposit into the " ++ reserve ++ " reserve")
          (given args.user))
    expected ← pure (
        required ("An expected result for action " ++ name ++ " is required")
          (given action.expected))
    let parsed_index = users.parse_int index
    secret_key ← pure (defined (at users.secret_keys (plus_one parsed_index)))
    dispatch reserve expected (at users.addresses parsed_index) args name
        (mode_of (given args.borrow_rate_mode)) secret_key action.revert_message
