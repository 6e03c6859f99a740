-- ===== src/Scenario/Complete.antt =====
-- test-suites/helpers/scenario-engine.ts: which actions are run.
use Prim.Native.String.{String}
use lend_core.Prelude.{◌≡◌, some, true}
use lend_core.Prelude.Run.{Run}
use lend_core.BigNumber.{BigNumberApi}
use lend_core.Actions.{Suite, given}
use lend_core.Scenario.{Arguments, Action, Users, at, plus_one, mode_of}
use lend_core.Scenario.Needs.{needs, fulfils}
use lend_core.Scenario.Dispatch.{execute_action}
use lend_core.Scenario.Called.{IsCalled}

-- What a complete action has
Parts : Users → Action → Type 0
Parts users action =
    (args : Arguments) × (name reserve expected index key account : String) × (action.args
      ≡ some args)
    × (given action.name ≡ some name)
    × (given args.reserve ≡ some reserve)
    × (given action.expected ≡ some expected)
    × (given args.user ≡ some index)
    × (at users.secret_keys (plus_one (users.parse_int index)) ≡ some key)
    × (at users.addresses (users.parse_int index) ≡ some account)
    × (fulfils users args needs name ≡ true)

module _ ⦃big : BigNumberApi⦄ (suite : Suite) (users : Users) where
  open suite use {chain}

  -- The action is run: the function of its name, with what its arguments say
  pub IsRun : Action → chain.State → Type 0
  IsRun action s =
      (args : Arguments) × (name reserve expected index key account : String) × (m : Run chain.State
        (Unit {0}))
      × (action.args ≡ some args)
      × (given action.name ≡ some name)
      × (given args.reserve ≡ some reserve)
      × (given action.expected ≡ some expected)
      × (given args.user ≡ some index)
      × (at users.secret_keys (plus_one (users.parse_int index)) ≡ some key)
      × (at users.addresses (users.parse_int index) ≡ some account)
      × IsCalled suite users reserve expected account args (mode_of (given args.borrow_rate_mode))
          key action.revert_message name m
      × (execute_action suite users action s ≡ m s)
