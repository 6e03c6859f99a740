-- ===== src/Scenario/Called.antt =====
-- test-suites/helpers/scenario-engine.ts: the call that the name and the arguments of an action ask for.
use Prim.Native.String.{String}
use package.text.Mathlib.Text.{◌==◌ as str_eq}
use lend_core.Prelude.{◌≡◌, Option, some, true}
use lend_core.Prelude.Run.{Run}
use lend_core.BigNumber.{BigNumberApi}
use lend_core.Types.{RateMode}
use lend_core.Actions.{Suite, given}
use lend_core.Actions.Supply.{mint, approve, deposit, withdraw, supply_with_permit}
use lend_core.Actions.Debt.{delegate_borrow_allowance, borrow, repay, repay_with_permit}
use lend_core.Actions.Modes.{
  set_use_as_collateral, swap_borrow_rate_mode, rebalance_stable_borrow_rate,
}
use lend_core.Scenario.{Arguments, Users, at, parsed, chosen}

-- The address that the index stands for
unfoldable pub IsAccountOf : Users → Option String → String → Type 0
IsAccountOf users index account =
    (text : String) × (index ≡ some text)
    × (at users.addresses (users.parse_int text) ≡ some account)

module _ ⦃big : BigNumberApi⦄ (suite : Suite) (users : Users) (reserve expected account : String)
    (args : Arguments) (mode : RateMode) (key : String) (message : Option String)
    (name : String) where
  open suite use {chain}

  -- The function of the name, with the reserve, the user's address, the amount, the account on whose
  -- behalf it acts, which is the user's unless it is named, and the rest of its arguments
  pub data IsCalled : Run chain.State (Unit {0}) → Type 0 where
    mint_called :
        (n : String)
        → str_eq name "mint" ≡ true
        → given args.amount ≡ some n
        → IsCalled (mint suite reserve n account)
    approve_called : str_eq name "approve" ≡ true → IsCalled (approve suite reserve account)
    deposit_called :
        (other : String) (n : String)
        → str_eq name "deposit" ≡ true
        → chosen users (given args.on_behalf_of) (some account) ≡ some other
        → given args.amount ≡ some n
        → IsCalled (deposit suite reserve n account other args.send_value expected)
    supply_with_permit_called :
        (other : String) (n : String)
        → str_eq name "supplyWithPermit" ≡ true
        → chosen users (given args.on_behalf_of) (some account) ≡ some other
        → given args.amount ≡ some n
        → IsCalled (supply_with_permit suite reserve n account key other args.send_value expected)
    delegate_called :
        (to : String) (n : String)
        → str_eq name "delegateBorrowAllowance" ≡ true
        → at users.addresses (parsed users args.to_user) ≡ some to
        → given args.amount ≡ some n
        → IsCalled (delegate_borrow_allowance suite reserve n mode account to expected message)
    withdraw_called :
        (n : String)
        → str_eq name "withdraw" ≡ true
        → given args.amount ≡ some n
        → IsCalled (withdraw suite reserve n account expected)
    borrow_called :
        (other : String) (n : String)
        → str_eq name "borrow" ≡ true
        → chosen users (given args.on_behalf_of) (some account) ≡ some other
        → given args.amount ≡ some n
        → IsCalled (borrow suite reserve n mode account other args.time_travel expected)
    repay_called :
        (n : String) (other : String)
        → str_eq name "repay" ≡ true
        → given args.amount ≡ some n
        → chosen users (given args.on_behalf_of) (some account) ≡ some other
        → IsCalled
            (repay suite reserve n mode account other args.send_value expected args.time_travel)
    repay_with_permit_called :
        (n : String) (other : String)
        → str_eq name "repayWithPermit" ≡ true
        → given args.amount ≡ some n
        → chosen users (given args.on_behalf_of) (some account) ≡ some other
        → IsCalled
            (repay_with_permit suite reserve n mode account key other args.send_value expected)
    set_use_as_collateral_called :
        (choice : String)
        → str_eq name "setUseAsCollateral" ≡ true
        → given args.use_as_collateral ≡ some choice
        → IsCalled (set_use_as_collateral suite reserve account choice expected)
    swap_called :
        str_eq name "swapBorrowRateMode" ≡ true
        → IsCalled (swap_borrow_rate_mode suite reserve account mode expected)
    rebalance_called :
        (target : String)
        → str_eq name "rebalanceStableBorrowRate" ≡ true
        → IsAccountOf users (given args.target) target
        → IsCalled (rebalance_stable_borrow_rate suite reserve account target expected)
